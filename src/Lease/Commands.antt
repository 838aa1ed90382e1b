-- ===== src/Lease/Commands.antt =====
-- src/terminal.rs: the commands of the owner of the lease. What the writer, the engine and the PTY do is an
-- argument: a write is complete, or breaks behind some bytes.
use Prim.Native.Nat.{◌+◌}
use astra_shell.Prelude.{
  ℕ, String, List, ◌++◌, Bool, true, false, not, ◌&&◌, ◌||◌, leb, ltb, ◌==◌, str_eq, Option, none,
  some,
}
use astra_shell.Prelude.Result.{Result, ok, err, panic, ◌>>=◌, ◌>>◌, ensure, ok_or}
use astra_shell.Lease.State.{
  released, Lease, Geometry, Terminal, LeaseError, no_lease, stale_lease, out_of_order,
  dimensions_invalid, pixels_invalid, engine_failed, pty_failed, write_failed, revoked,
  expire_lease_if_due_at,
}

unfoldable pub check_lease : String → ℕ → Option Lease → Result LeaseError Lease
check_lease lease_id sequence lease = do
  current ← ok_or lease no_lease
  ensure (str_eq current.id lease_id) stale_lease
  ensure (not (leb sequence current.last_sequence)) out_of_order
  ok current

abbrev pub Commanded : Type 0
Commanded = Result LeaseError Unit × Terminal

-- A command on a lease that has been checked; a refusal leaves the terminal after the expiry.
abbrev pub with_lease :
    (Lease → Terminal → Commanded) → Terminal → Result LeaseError Lease → Commanded
with_lease run t (ok current) = run current t
with_lease run t (err e) = (err e, t)
with_lease run t panic = (panic, t)

-- `validate_lease_at`, and what is done under its guard.
abbrev pub under_lease : String → ℕ → ℕ → (Lease → Terminal → Commanded) → Terminal → Commanded
under_lease lease_id sequence now run t =
    let after = expire_lease_if_due_at lease_id now t in
    with_lease run after (check_lease lease_id sequence after.lease)

abbrev pub renewed : ℕ → ℕ → Lease → Terminal → Commanded
renewed sequence until current t =
    let next : Lease = record current { expires_at = some until; last_sequence = sequence } in
    (ok tt, record t { lease = some next })

unfoldable pub renew_lease_at : String → ℕ → ℕ → ℕ → ℕ → Terminal → Commanded
renew_lease_at lease_id sequence ttl checked_at now t =
    under_lease lease_id sequence checked_at (renewed sequence (now + ttl)) t

abbrev pub released_by : String → Lease → Terminal → Commanded
released_by lease_id current t = (
  ok tt,
  record t {
    lease = none;
    recovery = none;
    lease_events = t.lease_events ++ revoked lease_id released;
  },
)

unfoldable pub release_lease_command : String → ℕ → ℕ → Terminal → Commanded
release_lease_command lease_id sequence now t =
    under_lease lease_id sequence now (released_by lease_id) t

-- What `write_all` and `flush` do: all bytes, or some and an error.
pub data Writing : Type 0 where
  complete : Writing
  breaks_after : List ℕ → Writing

abbrev pub advanced : ℕ → Lease → Terminal → Terminal
advanced sequence current t =
    let next : Lease = record current { last_sequence = sequence } in record t { lease = some next }

abbrev pub written_by : List ℕ → ℕ → Writing → Lease → Terminal → Commanded
written_by bytes sequence complete current t =
    (ok tt, advanced sequence current (record t { input = t.input ++ bytes }))
written_by bytes sequence (breaks_after part) current t =
    (err write_failed, record t { input = t.input ++ part })

unfoldable pub write_input : String → ℕ → List ℕ → ℕ → Writing → Terminal → Commanded
write_input lease_id sequence bytes now writing t =
    under_lease lease_id sequence now (written_by bytes sequence writing) t

abbrev pub in_grid : ℕ → Bool
in_grid n = leb 1 n && leb n 1000

-- `!=` of two tests.
abbrev pub not_same : Bool → Bool → Bool
not_same true b = not b
not_same false b = b

abbrev pub check_geometry : Geometry → Result LeaseError Unit
check_geometry g = do
  ensure (in_grid g.rows && in_grid g.cols) dimensions_invalid
  ensure
      (not (
        not_same (g.pixel_width == 0) (g.pixel_height == 0)
        || ltb 65535 g.pixel_width
        || ltb 65535 g.pixel_height))
      pixels_invalid

-- Which of the two resizes succeeds.
pub data Resizing : Type 0 where
  both_resize engine_fails pty_fails : Resizing

abbrev pub resized_by : Geometry → ℕ → Resizing → Lease → Terminal → Commanded
resized_by g sequence both_resize current t = (
  ok tt,
  advanced sequence current (record t { grid = g; pty = g; rows = g.rows; cols = g.cols }),
)
resized_by g sequence engine_fails current t = (err engine_failed, t)
resized_by g sequence pty_fails current t = (err pty_failed, record t { grid = g })

abbrev pub resize_checked :
    String → ℕ → Geometry → ℕ → Resizing → Terminal → Result LeaseError Unit → Commanded
resize_checked lease_id sequence g now resizing t (ok u) =
    under_lease lease_id sequence now (resized_by g sequence resizing) t
resize_checked lease_id sequence g now resizing t (err e) = (err e, t)
resize_checked lease_id sequence g now resizing t panic = (panic, t)

unfoldable pub resize : String → ℕ → Geometry → ℕ → Resizing → Terminal → Commanded
resize lease_id sequence g now resizing t =
    resize_checked lease_id sequence g now resizing t (check_geometry g)
