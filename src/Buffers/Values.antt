-- ===== src/Buffers/Values.antt =====
-- The handles of src/util/Bytes.cpp behave as values: what each reads after an operation, and that
-- the counts stay right.
use komozoievm.Envelope.Handles.{
  Store, points_at, pointer, differ, release, new_handle, copy_handle, move_handle, assign_copy,
  destroy,
}
use komozoievm.Envelope.Handles.Counts.{
  one_if, holders, IsCounted, copy_handle-IsCounted, move_handle-IsCounted, destroy-IsCounted,
  assign_copy-IsCounted, new_handle-IsCounted, lowered, holders-none, holders-set, freed_cases,
  pointer-set,
}
use komozoievm.Buffers.{
  BytesStore, new_bytes, copy_bytes, move_bytes, assign_copy_bytes, assign_move_bytes,
  destroy_bytes,
}
use komozoievm.Buffers.Ordering.{read}
use komozoievm.Common.{
  ℕ, zero, suc, ◌+◌, ◌-◌, ◌<◌, ◌≡◌, refl, sym, ap, ◌∙◌, List, [], ◌∷◌, ◌++◌, false, Option, none,
  some, ◌==◌, if◌then◌else◌, length, set, map, arith, length-set, Bool-cases, inl, inr,
}
use mathlib.Core.Path.{ap₂}

-- The contents that the handles read; a null pointer has none.
abbrev pub values : BytesStore → List (Option (List ℕ))
values s = map (read s.contents) s.store.handles

abbrev pub value_at : List (Option (List ℕ)) → ℕ → Option (List ℕ)
value_at [] i = none
value_at (v ∷ vs) zero = v
value_at (v ∷ vs) (suc i) = value_at vs i

module _ (c : ℕ → List ℕ) where
  map-append :
      (os : List (Option ℕ)) (o : Option ℕ)
      → map (read c) (os ++ o ∷ []) ≡ map (read c) os ++ read c o ∷ []
  map-append [] o = refl
  map-append (p ∷ os) o = ap (λ vs. read c p ∷ vs) (map-append os o)

  map-set :
      (os : List (Option ℕ)) (i : ℕ) (o : Option ℕ)
      → map (read c) (set os i o) ≡ set (map (read c) os) i (read c o)
  map-set [] i o = refl
  map-set (p ∷ os) zero o = refl
  map-set (p ∷ os) (suc i) o = ap (λ vs. read c p ∷ vs) (map-set os i o)

  read-pointer :
      (os : List (Option ℕ)) (i : ℕ) → read c (pointer os i) ≡ value_at (map (read c) os) i
  unfolding pointer
  read-pointer [] i = refl
  read-pointer (p ∷ os) zero = refl
  read-pointer (p ∷ os) (suc i) = read-pointer os i

set-pointer : (os : List (Option ℕ)) (i : ℕ) → set os i (pointer os i) ≡ os
unfolding pointer
set-pointer [] i = refl
set-pointer (p ∷ os) zero = refl
set-pointer (p ∷ os) (suc i) = ap (λ xs. p ∷ xs) (set-pointer os i)

not_different : (o p : Option ℕ) → differ o p ≡ false → o ≡ p
unfolding differ
not_different none none h = refl
not_different none (some d) h = absurd (ground arith)
not_different (some c) none h = absurd (ground arith)
not_different (some c) (some d) h = ap some (ground arith)

elsewhere : (k d n : ℕ) → one_if (k == d) + n ≡ 0 → (d == k) ≡ false
unfolding one_if
elsewhere k d n h = ground arith

read_new : (k : ℕ) (bytes : List ℕ) (c : ℕ → List ℕ) → (if k == k then bytes else c k) ≡ bytes
read_new k bytes c = ground arith

-- Bytes in a storage that no handle points at are read by none.
unread :
    (k : ℕ) (bytes : List ℕ) (c : ℕ → List ℕ) (os : List (Option ℕ))
    → holders k os ≡ 0
    → map (read (λ l. if l == k then bytes else c l)) os ≡ map (read c) os
unfolding holders points_at one_if
unread k bytes c [] h = refl
unread k bytes c (none ∷ os) h = ap (λ vs. none ∷ vs) (unread k bytes c os (omega (arith, h)))
unread k bytes c (some d ∷ os) h =
    let apart : (d == k) ≡ false = elsewhere k d (holders k os) h in
    ap₂ (λ v vs. some v ∷ vs) (ap (λ b. if b then bytes else c d) apart)
      (unread k bytes c os (omega (arith, h)))

module _ (i j : ℕ) (s : Store) (c : IsCounted s) (hi : i < length s.handles)
    (hj : j < length s.handles) (few : length s.handles < s.width - 1) where
  moved : List (Option ℕ)
  moved = set s.handles i (pointer s.handles j)

  left_over :
      (k : ℕ)
      → holders k (set moved j none) + one_if (points_at k (pointer s.handles i))
        ≡ holders k s.handles
  unfolding moved
  left_over k =
      let room : j < length moved =
        omega (arith, length-set s.handles i (pointer s.handles j), hj) in
      let kept =
        ap (λ o. one_if (points_at k o)) (pointer-set s.handles i j (pointer s.handles j) refl) in
      omega (
        arith,
        holders-none k moved j room,
        kept,
        holders-set k s.handles i (pointer s.handles j) hi,
      )

  assigned_move :
      IsCounted (record (release (pointer s.handles i) s) { handles = set moved j none })
  unfolding release
  assigned_move = record {
    counted = λ k. omega (arith, lowered i j s c hi hj few k, c.counted k, left_over k);
    alive = λ k f. elim (freed_cases (s.freed k) (points_at k (pointer s.handles i)) (s.refs k) f) [
      | inl gone ↦ omega (arith, c.alive k gone, left_over k)
      | inr (one, last) ↦ omega (arith, one, last, c.counted k, left_over k)
    ];
  }

-- The counts are right, and the handles read these values.
abbrev pub Reads : BytesStore → List (Option (List ℕ)) → Type 0
Reads s vs = IsCounted s.store × (values s ≡ vs)

-- Where the counts are right, the handles named are there and there are fewer than the width less
-- one, and no handle points at the storage that is new: the three constructors, the two assignments
-- and the destructor of `Bytes` leave the counts right and act as on a list of values. The
-- constructor from bytes adds them; the one that copies adds the value of its handle, and the one
-- that moves takes it away besides; an assignment puts the other's value in place, and the one that
-- moves takes it away, from a handle moved to itself too; the destructor leaves none. A write
-- through `operator[]`, `get` or `data` is not among them: each handle of the storage would see it.
pub bytes-Reads :
    (k : ℕ) (bytes : List ℕ) (i j : ℕ) (s : BytesStore)
    → IsCounted s.store
    → holders k s.store.handles ≡ 0
    → i < length s.store.handles
    → j < length s.store.handles
    → length s.store.handles < s.store.width - 1
    → Reads (new_bytes k bytes s) (values s ++ some bytes ∷ [])
      × Reads (copy_bytes j s) (values s ++ value_at (values s) j ∷ [])
      × Reads (move_bytes j s) (set (values s) j none ++ value_at (values s) j ∷ [])
      × Reads (assign_copy_bytes i j s) (set (values s) i (value_at (values s) j))
      × Reads (assign_move_bytes i j s) (set (set (values s) i (value_at (values s) j)) j none)
      × Reads (destroy_bytes i s) (set (values s) i none)
unfolding new_bytes copy_bytes move_bytes assign_copy_bytes assign_move_bytes destroy_bytes
    new_handle copy_handle move_handle assign_copy destroy moved
bytes-Reads k bytes i j s c fresh hi hj few = (
  (
    new_handle-IsCounted k s.store c fresh,
    map-append with_new os (some k)
        ∙ ap₂ (λ vs v. vs ++ some v ∷ []) (unread k bytes s.contents os fresh)
            (read_new k bytes s.contents),
  ),
  (
    copy_handle-IsCounted i j s.store c hi hj few,
    map-append s.contents os (pointer os j) ∙ ap (λ v. values s ++ v ∷ []) other,
  ),
  (
    move_handle-IsCounted i j s.store c hi hj few,
    map-append s.contents (set os j none) (pointer os j)
        ∙ ap₂ (λ vs v. vs ++ v ∷ []) (map-set s.contents os j none) other,
  ),
  (assign_copy-IsCounted i j s.store c hi hj few, assigned),
  (
    assigned_move i j s.store c hi hj few,
    map-set s.contents (set os i (pointer os j)) j none ∙ ap (λ vs. set vs j none) put,
  ),
  (destroy-IsCounted i j s.store c hi hj few, map-set s.contents os i none),
)
  where
    os : List (Option ℕ)
    os = s.store.handles

    with_new : ℕ → List ℕ
    with_new l = if l == k then bytes else s.contents l

    other : read s.contents (pointer os j) ≡ value_at (values s) j
    other = read-pointer s.contents os j

    put : map (read s.contents) (set os i (pointer os j)) ≡ set (values s) i (value_at (values s) j)
    put = map-set s.contents os i (pointer os j) ∙ ap (set (values s) i) other

    assigned : values (assign_copy_bytes i j s) ≡ set (values s) i (value_at (values s) j)
    assigned = elim (Bool-cases (differ (pointer os i) (pointer os j))) [
      | inl two ↦ rw two put
      | inr one ↦ rw one (
          sym (
            sym put
            ∙ ap (λ o. map (read s.contents) (set os i o))
                (sym (not_different (pointer os i) (pointer os j) one))
            ∙ ap (map (read s.contents)) (set-pointer os i)))
    ]
