-- ===== src/Tests/Handles.antt =====
-- The handles on the data of transactions at a small store.
use komozoievm.Envelope.Handles.{
  Store, points_at, pointer, differ, new_handle, copy_handle, move_handle, assign_copy, assign_move,
  destroy,
}
use komozoievm.Envelope.Handles.Counts.{
  one_if, holders, IsCounted, handles-IsCounted, assign_move_lost,
}
use komozoievm.Common.{◌+◌, ◌^◌, ◌≡◌, refl, [], ◌∷◌, false, some, ◌==◌, if◌then◌else◌, arith}

-- Two transactions, the first with two handles.
abbrev shared : Store
shared = record {
  width = 2 ^ 16;
  refs = λ k. if k == 0 then 2 else if k == 1 then 1 else 0;
  freed = λ k. false;
  handles = some 0 ∷ some 0 ∷ some 1 ∷ [];
}

shared-IsCounted : IsCounted shared
unfolding holders points_at one_if
shared-IsCounted = record { counted = λ k. ground arith; alive = λ k f. absurd (ground arith) }

no_holders : holders 2 shared.handles ≡ 0
unfolding holders points_at one_if
no_holders = refl

handles-IsCounted_example :
    IsCounted (new_handle 2 shared)
    × IsCounted (copy_handle 2 shared)
    × IsCounted (move_handle 2 shared)
    × IsCounted (assign_copy 0 2 shared)
    × IsCounted (destroy 0 shared)
handles-IsCounted_example =
    handles-IsCounted 2 0 2 shared shared-IsCounted no_holders (omega arith) (omega arith)
      (omega arith)

assign_move_lost_example :
    (assign_move 0 2 shared).refs 1 ≡ holders 1 (assign_move 0 2 shared).handles + 1
unfolding pointer differ
assign_move_lost_example =
    assign_move_lost 0 2 1 shared shared-IsCounted (omega arith) (omega arith) (omega arith) refl
      refl
