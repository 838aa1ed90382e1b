-- ===== src/Terminal/Equality.antt =====
-- src/terminal_sync.rs: the equality tests of the messages, and the order of anchors.
use astra_shell.Prelude.{
  ◌≡◌, refl, List, [], ◌∷◌, Bool, true, false, Option, none, some, str_eq_iff, arith,
}
use astra_shell.Terminal.State.{Anchor, Cell, Row}
use astra_shell.Terminal.Checks.{anchor_eq, key_lt}
use astra_shell.Terminal.Diff.{cell_eq, cells_eq, start_eq, bool_eq, row_eq}

pub anchor_eq→eq : (a b : Anchor) → anchor_eq a b ≡ true → a ≡ b
unfolding anchor_eq
anchor_eq→eq a b h = ground arith

pub anchor_eq_refl : (a : Anchor) → anchor_eq a a ≡ true
unfolding anchor_eq
anchor_eq_refl a = ground arith

pub key_lt_trans : (a b c : Anchor) → key_lt a b ≡ true → key_lt b c ≡ true → key_lt a c ≡ true
unfolding key_lt
key_lt_trans a b c h k = ground arith

-- Anchors in strict order are apart.
pub key_lt-anchor_eq : (a b : Anchor) → key_lt a b ≡ true → anchor_eq a b ≡ false
unfolding key_lt anchor_eq
key_lt-anchor_eq a b h = ground arith

pub key_lt-anchor_eq_after : (a b : Anchor) → key_lt a b ≡ true → anchor_eq b a ≡ false
unfolding key_lt anchor_eq
key_lt-anchor_eq_after a b h = ground arith

pub cell_eq→eq : (c d : Cell) → cell_eq c d ≡ true → c ≡ d
unfolding cell_eq
cell_eq→eq c d h = ground (arith, str_eq_iff c.grapheme d.grapheme)

cells_eq→eq : (cs ds : List Cell) → cells_eq cs ds ≡ true → cs ≡ ds
unfolding cells_eq
cells_eq→eq [] [] h = refl
cells_eq→eq [] (d ∷ ds) h = cc
cells_eq→eq (c ∷ cs) [] h = cc
cells_eq→eq (c ∷ cs) (d ∷ ds) h = ground (arith, cell_eq→eq c d, cells_eq→eq cs ds)

start_eq→eq : (a b : Option Anchor) → start_eq a b ≡ true → a ≡ b
unfolding start_eq
start_eq→eq none none h = refl
start_eq→eq none (some b) h = cc
start_eq→eq (some a) none h = cc
start_eq→eq (some a) (some b) h = ground (arith, anchor_eq→eq a b)

pub bool_eq→eq : (a b : Bool) → bool_eq a b ≡ true → a ≡ b
unfolding bool_eq
bool_eq→eq true b h = ground arith
bool_eq→eq false b h = ground arith

pub row_eq→eq : (r s : Row) → row_eq r s ≡ true → r ≡ s
unfolding row_eq
row_eq→eq r s h = ground (
  arith,
  start_eq→eq r.start s.start,
  cells_eq→eq r.cells s.cells,
  bool_eq→eq r.wrapped_to_next s.wrapped_to_next,
)
