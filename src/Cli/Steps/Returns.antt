-- ===== src/Cli/Steps/Returns.antt =====
-- Calls that return, with what they keep of the world of the database and of the mutexes.
use schemago.Base.{ℕ, ◌≡◌, arith, refl, Bool, Result, ok, err, Option-cases, inl, inr}
use schemago.Text.{Bytes}
use schemago.Lock.{Mutexes}
use schemago.Output.{Script, PrintError, print}
use schemago.Cli.Host.{
  CliError, Document, Host, Machine, Ended, ended, blocks, crashes, Act, write_error, continue,
  ended_with, clean_up,
}
use schemago.Cli.Steps.{exit_failure, stop, check, call, show, show_json}

-- A property of the world and of the mutexes.
abbrev pub Keeping : Host → Type 1
Keeping host = host.rt.World → Mutexes → Type 0

-- No more is known of the value.
abbrev pub Any : {A : Type 0} → A → Type 0
Any a = Unit

-- The value is good, or ExitFailure is returned.
abbrev pub IsGood : {A : Type 0} → (A → Type 0) → Result ℕ A → Type 0
IsGood Good (ok a) = Good a
IsGood Good (err code) = code ≡ exit_failure

module _ {host : Host} where
  -- The call gives a good value, or the handler returns ExitFailure; it neither waits nor stops the
  -- program.
  abbrev pub Returns : {A : Type 0} → Keeping host → (A → Type 0) → Ended host (Result ℕ A) → Type 0
  Returns I Good (ended r m) = IsGood Good r × I m.world m.mutexes
  Returns I Good blocks = ⊥
  Returns I Good crashes = ⊥

  abbrev pub Cleans : Keeping host → Ended host (Unit {0}) → Type 0
  Cleans I (ended u m) = I m.world m.mutexes
  Cleans I blocks = ⊥
  Cleans I crashes = ⊥

  pub continue-Returns :
      {A B : Type 0} (I I' : Keeping host) (Good : A → Type 0) (Good' : B → Type 0)
      (e : Ended host (Result ℕ A)) (f : A → Act host B)
      → Returns I Good e
      → ((a : A) (m : Machine host) → Good a → I m.world m.mutexes → Returns I' Good' (f a m))
      → ((m : Machine host) → I m.world m.mutexes → I' m.world m.mutexes)
      → Returns I' Good' (continue e f)
  continue-Returns I I' Good Good' (ended (ok a) m) f h k j = k a m h.0 h.1
  continue-Returns I I' Good Good' (ended (err code) m) f h k j = (h.0, j m h.1)
  continue-Returns I I' Good Good' blocks f h k j = absurd h
  continue-Returns I I' Good Good' crashes f h k j = absurd h

  cleaned-Returns :
      {A : Type 0} (I : Keeping host) (Good : A → Type 0) (r : Result ℕ A)
      (cleanup : Machine host → Ended host (Unit {0})) (m : Machine host)
      (e : Ended host (Unit {0}))
      → cleanup m ≡ e
      → IsGood Good r
      → Cleans I e
      → Returns I Good (ended_with cleanup r m)
  cleaned-Returns I Good r cleanup m (ended u m') same h k = rw (same, ended_with) (h, k)
  cleaned-Returns I Good r cleanup m blocks same h k = absurd k
  cleaned-Returns I Good r cleanup m crashes same h k = absurd k

  pub clean_up-Returns :
      {A : Type 0} (I I' : Keeping host) (Good : A → Type 0)
      (cleanup : Machine host → Ended host (Unit {0})) (e : Ended host (Result ℕ A))
      → Returns I Good e
      → ((m : Machine host) → I m.world m.mutexes → Cleans I' (cleanup m))
      → Returns I' Good (clean_up cleanup e)
  clean_up-Returns I I' Good cleanup (ended r m) h k =
      cleaned-Returns I' Good r cleanup m (cleanup m) refl h.0 (k m h.1)
  clean_up-Returns I I' Good cleanup blocks h k = absurd h
  clean_up-Returns I I' Good cleanup crashes h k = absurd h

module _ (host : Host) (cmd : Bytes) (json : Bool) (I : Keeping host) where
  pub stop-Returns :
      {A : Type 0} (Good : A → Type 0) (e : CliError) (m : Machine host)
      → I m.world m.mutexes
      → Returns I Good (stop host cmd json e m)
  unfolding stop write_error
  stop-Returns Good e m h = ground arith

  pub check-Returns :
      {E A : Type 0} (wrapped : E → CliError) (r : Result E A) (m : Machine host)
      → I m.world m.mutexes
      → Returns I Any (check host cmd json wrapped r m)
  check-Returns wrapped (ok a) m h = (tt, h)
  check-Returns wrapped (err e) m h = stop-Returns Any (wrapped e) m h

  pub call-Returns :
      {E A : Type 0} (wrapped : E → CliError) (f : host.rt.World → Result E A × host.rt.World)
      (m : Machine host)
      → I (f m.world).1 m.mutexes
      → Returns I Any (call host cmd json wrapped f m)
  call-Returns wrapped f m h =
      check-Returns wrapped (f m.world).0 (record m { world = (f m.world).1 }) h

  pub show-Returns :
      {E : Type 0} (wrapped : PrintError E → CliError) (s : Script E) (m : Machine host)
      → I m.world m.mutexes
      → Returns I Any (show host cmd json wrapped s m)
  show-Returns wrapped s m h = elim (Option-cases (print host.out s m.stdout).0) [
    | inl e ↦ rw (e, show) (tt, h)
    | inr (x, e) ↦ rw (e, show) (stop-Returns Any (wrapped x) _ h)
  ]

  pub show_json-Returns :
      (doc : Document) (m : Machine host)
      → I m.world m.mutexes
      → Returns I Any (show_json host cmd json doc m)
  show_json-Returns doc m h =
      continue-Returns I I Any Any _ _ (check-Returns _ (host.encode doc) m h) (λ a m' u i. (tt, i))
        (λ m' i. i)

module _ {host : Host} where
  -- The same property from the call to its continuation.
  pub bind-Returns :
      {A B : Type 0} (I : Keeping host) (Good : A → Type 0) (Good' : B → Type 0)
      (e : Ended host (Result ℕ A)) (f : A → Act host B)
      → Returns I Good e
      → ((a : A) (m : Machine host) → Good a → I m.world m.mutexes → Returns I Good' (f a m))
      → Returns I Good' (continue e f)
  bind-Returns I Good Good' e f h k = continue-Returns I I Good Good' e f h k (λ m i. i)

  pub weaken-Returns :
      {A : Type 0} (I I' : Keeping host) (Good : A → Type 0) (e : Ended host (Result ℕ A))
      → ((m : Machine host) → I m.world m.mutexes → I' m.world m.mutexes)
      → Returns I Good e
      → Returns I' Good e
  weaken-Returns I I' Good (ended r m) k h = (h.0, k m h.1)
  weaken-Returns I I' Good blocks k h = absurd h
  weaken-Returns I I' Good crashes k h = absurd h
