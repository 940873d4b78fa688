-- ===== src/Envelope/Handles.antt =====
-- The class `EthereumTransaction` of src/ethereum/EthereumTransaction.h as a handle on shared data with
-- a count of references. Data are named by numbers, and the handles that live stand in a list.
pub mod Counts
use komozoievm.Common.{
  ℕ, zero, suc, ◌+◌, ◌-◌, ◌%◌, ◌^◌, List, [], ◌∷◌, ◌++◌, Bool, true, false, Option, none, some,
  ◌==◌, if◌then◌else◌, ◌&&◌, ◌||◌, set,
}

-- A count is kept modulo `width`, which is 2 ^ 16 here.
pub record Store : Type 0 where
  pub width : ℕ
  pub refs : ℕ → ℕ
  pub freed : ℕ → Bool
  pub handles : List (Option ℕ)

-- Whether a pointer points at data `k`.
unfoldable pub points_at : ℕ → Option ℕ → Bool
points_at k none = false
points_at k (some d) = k == d

-- The pointer in a handle.
unfoldable pub pointer : List (Option ℕ) → ℕ → Option ℕ
pointer [] i = none
pointer (o ∷ os) zero = o
pointer (o ∷ os) (suc i) = pointer os i

-- `!=` of two pointers.
unfoldable pub differ : Option ℕ → Option ℕ → Bool
differ none none = false
differ none (some d) = true
differ (some d) none = true
differ (some c) (some d) = if c == d then false else true

-- `fetch_sub(1)`, and `free` where the count was 1.
unfoldable pub release : Option ℕ → Store → Store
unfolding points_at
release o s = record s {
  refs = λ k. if points_at k o then (s.refs k + s.width - 1) % s.width else s.refs k;
  freed = λ k. s.freed k || (points_at k o && s.refs k == 1);
}

-- `fetch_add(1)`.
unfoldable pub acquire : Option ℕ → Store → Store
unfolding points_at
acquire o s = record s { refs = λ k. if points_at k o then (s.refs k + 1) % s.width else s.refs k }

-- The constructor from values, whose data get the name `k`: `initFrom` sets the count to 1.
unfoldable pub new_handle : ℕ → Store → Store
unfolding points_at
new_handle k s = record s {
  refs = λ l. if points_at l (some k) then 1 else s.refs l;
  freed = λ l. if points_at l (some k) then false else s.freed l;
  handles = s.handles ++ some k ∷ [];
}

-- The constructor that copies the handle `j`.
unfoldable pub copy_handle : ℕ → Store → Store
unfolding acquire pointer
copy_handle j s =
    let o = pointer s.handles j in
    let s' = acquire o s in record s' { handles = s.handles ++ o ∷ [] }

-- The constructor that moves the handle `j`.
unfoldable pub move_handle : ℕ → Store → Store
unfolding pointer
move_handle j s = record s { handles = set s.handles j none ++ pointer s.handles j ∷ [] }

-- The assignment that copies.
unfoldable pub assign_copy : ℕ → ℕ → Store → Store
unfolding acquire release differ pointer
assign_copy i j s =
    let old = pointer s.handles i in
    let new = pointer s.handles j in
    let s' = acquire new (release old s) in
    if differ old new then record s' { handles = set s.handles i new } else s

-- The assignment that moves.
unfoldable pub assign_move : ℕ → ℕ → Store → Store
unfolding acquire release differ pointer
assign_move i j s =
    let old = pointer s.handles i in
    let new = pointer s.handles j in
    let s' = acquire new (release old s) in
    if differ old new then record s' { handles = set (set s.handles i new) j none } else s

-- The destructor; the handle points nowhere from then on.
unfoldable pub destroy : ℕ → Store → Store
unfolding release pointer
destroy i s =
    let s' = release (pointer s.handles i) s in record s' { handles = set s.handles i none }
