-- ===== src/Machine/Run/Transfer.antt =====
-- How the value of a call moves at the start of `runEVMRaw` of src/ethereum/EVM.cpp.
use komozoievm.External.{Env}
use komozoievm.Context.State.{
  bind_lem, World, Res, done, M, Outcome, failed, static_state, insufficient_eth, pure, ◌>>=◌,
}
use komozoievm.Context.Overlay.{pay_account, deduct_account}
use komozoievm.Context.Overlay.Transfers.{
  seen_balance, pay_account_balances, deduct_account_balances,
}
use komozoievm.Machine.Run.{transfer}
use komozoievm.Common.{
  leb→le, leb→gt, ℕ, ◌+◌, ◌-◌, ◌%◌, ◌^◌, ◌≤◌, ◌<◌, ◌≡◌, refl, sym, subst, Option, none, some, Bool,
  true, false, if◌then◌else◌, ◌==◌, ◌≢◌, leb, ◌&&◌, ◌∙◌, arith, Bool-cases, inl, inr, ◌⊎◌,
}

-- The balances behind a transfer of `v` from one account to another.
abbrev pub after_transfer : Env → World → ℕ → ℕ → ℕ → ℕ → ℕ
after_transfer e w caller address v b =
    if b == address
    then (seen_balance e w b + v) % 2 ^ 256
    else if b == caller
    then seen_balance e w b - v
    else seen_balance e w b

-- `transfer` of a value that is not 0.
moves : Env → ℕ → ℕ → ℕ → M (Option Outcome)
moves e a c v = do
  paid ← pay_account e a v
  let deduct = (do
    deducted ← deduct_account e c v
    if deducted then pure none else pure (some (failed insufficient_eth)))
  if paid then deduct else pure (some (failed static_state))

transfer-moves :
    (e : Env) (w : World)
    → w.frame.value ≢ 0
    → transfer e w ≡ moves e w.frame.address w.frame.caller w.frame.value w
unfolding transfer moves
transfer-moves e w h = elim (Bool-cases (w.frame.value == 0)) [
  | inl zero_value ↦ absurd (ground arith)
  | inr else_value ↦ rw else_value refl
]

moves_static :
    (e : Env) (a c v : ℕ) (w : World)
    → pay_account e a v w ≡ done false w
    → moves e a c v w ≡ done (some (failed static_state)) w
unfolding moves
moves_static e a c v w h = bind_lem (pay_account e a v) _ w h

moves_done :
    (e : Env) (a c v : ℕ) (w w₁ w₂ : World) (d : Bool)
    → pay_account e a v w ≡ done true w₁
    → deduct_account e c v w₁ ≡ done d w₂
    → moves e a c v w ≡ done (if d then none else some (failed insufficient_eth)) w₂
unfolding moves
moves_done e a c v w w₁ w₂ true h k =
    bind_lem (pay_account e a v) _ w h ∙ bind_lem (deduct_account e c v) _ w₁ k
moves_done e a c v w w₁ w₂ false h k =
    bind_lem (pay_account e a v) _ w h ∙ bind_lem (deduct_account e c v) _ w₁ k

-- Two steps of balances, the payment's and the deduction's, on any function that tells balances.
balances_step :
    (s s₁ s₂ : ℕ → ℕ) (a c v : ℕ)
    → c ≢ a
    → ((b : ℕ) → s₁ b ≡ (if b == a then (s a + v) % 2 ^ 256 else s b))
    → ((b : ℕ) → s₂ b ≡ (if (b == c) && leb v (s₁ c) then s₁ c - v else s₁ b))
    → (s₁ c ≡ s c)
      × (v ≤ s c
          → (b : ℕ)
          → s₂ b ≡ (if b == a then (s b + v) % 2 ^ 256 else if b == c then s b - v else s b))
balances_step s s₁ s₂ a c v differ h k =
    (ground (arith, h c), λ covers b. ground (arith, h c, h b, k b))

Settled : Env → World → World → ℕ → ℕ → ℕ → Res (Option Outcome) → Type 0
Settled e w w₂ a c v r =
    ((seen_balance e w c < v) × (r ≡ done (some (failed insufficient_eth)) w₂))
    ⊎ ((v ≤ seen_balance e w c)
        × (r ≡ done none w₂)
        × ((b : ℕ) → seen_balance e w₂ b ≡ after_transfer e w c a v b))

moves-Settled :
    (e : Env) (a c v : ℕ) (w w₁ w₂ : World)
    → c ≢ a
    → pay_account e a v w ≡ done true w₁
    → ((b : ℕ)
        → seen_balance e w₁ b
          ≡ (if b == a then (seen_balance e w a + v) % 2 ^ 256 else seen_balance e w b))
    → deduct_account e c v w₁ ≡ done (leb v (seen_balance e w₁ c)) w₂
    → ((b : ℕ)
        → seen_balance e w₂ b ≡ (
            if (b == c) && leb v (seen_balance e w₁ c)
            then seen_balance e w₁ c - v
            else seen_balance e w₁ b))
    → Settled e w w₂ a c v (moves e a c v w)
unfolding Settled
moves-Settled e a c v w w₁ w₂ differ h s₁ k s₂ =
    let (same, balances) =
      balances_step (seen_balance e w) (seen_balance e w₁) (seen_balance e w₂) a c v differ s₁ s₂ in
    elim (Bool-cases (leb v (seen_balance e w₁ c))) [
      | inl covers ↦
          let enough : v ≤ seen_balance e w c = subst (λ (n : ℕ). v ≤ n) same (leb→le _ _ covers) in
          inr (
            enough,
            moves_done e a c v w w₁ w₂ true h
                (subst (λ (d : Bool). deduct_account e c v w₁ ≡ done d w₂) covers k),
            balances enough,
          )
      | inr short ↦
          let few : seen_balance e w c < v = subst (λ (n : ℕ). n < v) same (leb→gt _ _ short) in
          inl (
            few,
            moves_done e a c v w w₁ w₂ false h
                (subst (λ (d : Bool). deduct_account e c v w₁ ≡ done d w₂) short k),
          )
    ]

-- The transfer of a value that is not 0 between two different accounts. In a static context the run
-- ends with no change. In another, where the balance that is seen of the caller does not cover the
-- value, the run ends for want of funds; else the run goes on, the caller's balance is less by the
-- value, the recipient's more, as a 256-bit sum, and every other is as before.
pub transfer_balances :
    (e : Env) (w : World)
    → w.frame.value ≢ 0
    → w.frame.caller ≢ w.frame.address
    → ((w.frame.is_static ≡ true) × (transfer e w ≡ done (some (failed static_state)) w))
      ⊎ ((w' : World) × (w.frame.is_static ≡ false)
          × (((seen_balance e w w.frame.caller < w.frame.value)
                × (transfer e w ≡ done (some (failed insufficient_eth)) w'))
              ⊎ ((w.frame.value ≤ seen_balance e w w.frame.caller)
                  × (transfer e w ≡ done none w')
                  × ((b : ℕ)
                      → seen_balance e w' b
                        ≡ after_transfer e w w.frame.caller w.frame.address w.frame.value b))))
unfolding Settled
transfer_balances e w some_value differ = elim (pay_account_balances e a v w) [
  | inl (static, h) ↦ inl (static, transfer-moves e w some_value ∙ moves_static e a c v w h)
  | inr (w₁, open_context, h, free, s₁) ↦ elim (deduct_account_balances e c v w₁) [
    | inl (static, k) ↦ absurd (ground arith)
    | inr (w₂, k, free₂, s₂) ↦
        inr (w₂, open_context, settled w₂ (moves-Settled e a c v w w₁ w₂ differ h s₁ k s₂))
  ]
]
  where
    a : ℕ
    a = w.frame.address

    c : ℕ
    c = w.frame.caller

    v : ℕ
    v = w.frame.value

    settled :
        (w₂ : World) → Settled e w w₂ a c v (moves e a c v w) → Settled e w w₂ a c v (transfer e w)
    settled w₂ t = subst (Settled e w w₂ a c v) (sym (transfer-moves e w some_value)) t
