-- ===== src/Output.antt =====
-- What the program writes to an `io.Writer`, and the texts that it makes with fmt, strconv and time.
pub mod Decimal
pub mod Duration
use schemago.Base.{◌≡◌, Option, none, some, List, [], ◌∷◌, ◌++◌}
use schemago.Text.{Bytes}

-- A run of `fmt.Fprint`, `Fprintf` and `Fprintln` calls, each followed by `if err != nil { return err }`,
-- which ends with a return of nil or of an error of its own.
pub data Script {ℓ} (E : Type ℓ) : Type ℓ where
  done : Script E
  fail : E → Script E
  write : Bytes → Script E → Script E

-- A writer; an error is given by its text.
pub record Writer : Type 1 where
  pub State : Type 0
  pub write_to : Bytes → State → Option Bytes × State

-- What a script returns: the error of the writer, or its own.
pub data PrintError {ℓ} (E : Type ℓ) : Type ℓ where
  write_failed : Bytes → PrintError E
  stopped : E → PrintError E

module _ {ℓ} {E : Type ℓ} where
  unfoldable pub print : (out : Writer) → Script E → out.State → Option (PrintError E) × out.State
  print out done w = (none, w)
  print out (fail e) w = (some (stopped e), w)
  print out (write text rest) w =
      let (r, w') = out.write_to text w in
      elim r [ none ↦ print out rest w' | some e ↦ (some (write_failed e), w') ]

  infixr 60 ◌▷◌
  -- One script after the other.
  abbrev pub ◌▷◌ : Script E → Script E → Script E
  done ▷ t = t
  fail e ▷ t = fail e
  write text s ▷ t = write text (s ▷ t)

  -- Texts that are written in order.
  abbrev pub write_all : List Bytes → Script E
  write_all [] = done
  write_all (text ∷ texts) = write text (write_all texts)

  -- All that a script writes where no write fails, and the error that it ends with.
  abbrev pub text_of : Script E → Bytes
  text_of done = []
  text_of (fail e) = []
  text_of (write text s) = text ++ text_of s

  abbrev pub error_of : Script E → Option E
  error_of done = none
  error_of (fail e) = some e
  error_of (write text s) = error_of s
