-- ===== src/Db/Handles.antt =====
-- The handles that connecting leaves open.
use schemago.Base.{
  ℕ, ◌+◌, ◌≡◌, refl, ◌∙◌, true, ok, err, Result, Result-cases, Option-cases, Bool-cases, inl, inr,
}
use schemago.Base.Int.{ℤ}
use schemago.Text.{Bytes, is_empty}
use schemago.Text.Trim.{trim_space}
use schemago.Db.{GoError, Connector, driver_of, dsn_of, connect, ping, or_default, connect_and_ping}

-- What the documentation of database/sql says of the open handles.
pub record Handles {World : Type 0} (c : Connector World) : Type 0 where
  pub count : World → ℕ
  pub open_ok :
      (driver dsn : Bytes) (w : World)
      → (c.open_driver driver dsn w).0 ≡ ok tt
      → count (c.open_driver driver dsn w).1 ≡ count w + 1
  pub open_err :
      (driver dsn : Bytes) (w : World) (e : GoError)
      → (c.open_driver driver dsn w).0 ≡ err e
      → count (c.open_driver driver dsn w).1 ≡ count w
  pub ping_count : (t : ℤ) (w : World) → count (c.ping_context t w).1 ≡ count w
  pub close_count : (n : ℕ) (w : World) → count w ≡ n + 1 → count (c.close w) ≡ n

module _ (format_duration : ℤ → Bytes) {World : Type 0} (c : Connector World) (hs : Handles c) where
  -- One more handle is open after a success, and no other after a failure.
  abbrev pub Leaves : ℕ → Result GoError (Unit {0}) → ℕ → Type 0
  Leaves before (ok db) after = after ≡ before + 1
  Leaves before (err e) after = after ≡ before

  connect-Leaves :
      (s : Bytes) (w : World)
      → let (r, w') = connect format_duration c s w in Leaves (hs.count w) r (hs.count w')
  unfolding connect
  connect-Leaves s w = elim (Bool-cases (is_empty (trim_space s))) [
    | inl e ↦ rw (e, connect) refl
    | inr e ↦ elim (Result-cases (c.open_driver (driver_of s) (dsn_of s) w).0) [
      | inl (a, o) ↦ rw (e, connect) (rw o (hs.open_ok (driver_of s) (dsn_of s) w o))
      | inr (x, o) ↦ rw (e, connect) (rw o (hs.open_err (driver_of s) (dsn_of s) w x o))
    ]
  ]

  ping-count : (t : ℤ) (w : World) → hs.count (ping format_duration c true t w).1 ≡ hs.count w
  unfolding ping
  ping-count t w = hs.ping_count t w

  -- `ConnectAndPing` opens exactly one handle if it succeeds, and where it returns an error, be it of
  -- the connection string, of the driver or of the health check, it leaves open only those that were open
  -- before.
  pub connect_and_ping-Leaves :
      (s : Bytes) (timeout : ℤ) (w : World)
      → let (r, w') = connect_and_ping format_duration c s timeout w in
        Leaves (hs.count w) r (hs.count w')
  unfolding connect_and_ping
  connect_and_ping-Leaves s timeout w =
      let t = or_default timeout in
      let w1 = (connect format_duration c s w).1 in
      elim (Result-cases (connect format_duration c s w).0) [
        | inr (x, e) ↦ rw (e, connect_and_ping) (rw e at (connect-Leaves s w))
        | inl (a, e) ↦
            let opened : hs.count (ping format_duration c true t w1).1 ≡ hs.count w + 1 =
              ping-count t w1 ∙ rw e at (connect-Leaves s w) in
            elim (Option-cases (ping format_duration c true t w1).0) [
              | inl n ↦ rw (e, connect_and_ping) (rw n opened)
              | inr (x, n) ↦ rw (e, connect_and_ping) (rw n (hs.close_count (hs.count w) _ opened))
            ]
      ]
