-- ===== src/Context/Overlay/Transfers.antt =====
-- The balances that a context sees, and how `payAccount` and `deductAccount` move them.
use komozoievm.External.{Env, Account}
use komozoievm.Context.State.{Ctx, World, done}
use komozoievm.Context.Provider.{get_account_info}
use komozoievm.Context.Overlay.{held_account, pay_account, deduct_account}
use komozoievm.Common.{
  ℕ, ◌+◌, ◌-◌, ◌%◌, ◌^◌, ◌≡◌, refl, List, [], ◌∷◌, true, false, put, lookup-put, ◌==◌,
  if◌then◌else◌, arith, inl, inr, ◌⊎◌, Bool-cases, ltb, leb, ◌&&◌,
}

-- Reading one account leaves what is read of every account the same.
pub reads_stable :
    (e : Env) (cs : List Ctx) (a b : ℕ)
    → (get_account_info e (get_account_info e cs a e.block.state_block).1 b e.block.state_block).0
      ≡ (get_account_info e cs b e.block.state_block).0
unfolding get_account_info
reads_stable e [] a b = refl
reads_stable e (c ∷ cs) a b = ground (
  arith,
  reads_stable e cs a b,
  lookup-put c.accounts a b (get_account_info e cs a e.block.state_block).0,
)

-- The balance of an account as the running context sees it.
abbrev pub seen_balance : Env → World → ℕ → ℕ
seen_balance e w a = (held_account e a w).0.balance

-- `payAccount` of the running context: in a static context it is refused and changes nothing.
-- Otherwise it adds the amount to the balance that is seen of the one account, as a 256-bit sum,
-- and every other balance that is seen stays.
pub pay_account_balances :
    (e : Env) (a amount : ℕ) (w : World)
    → ((w.frame.is_static ≡ true) × (pay_account e a amount w ≡ done false w))
      ⊎ ((w' : World) × (w.frame.is_static ≡ false)
          × (pay_account e a amount w ≡ done true w')
          × (w'.frame.is_static ≡ false)
          × ((b : ℕ)
              → seen_balance e w' b
                ≡ (if b == a then (seen_balance e w a + amount) % 2 ^ 256 else seen_balance e w b)))
unfolding pay_account
pay_account_balances e a amount w = elim (Bool-cases w.frame.is_static) [
  | inl static ↦ inl (static, ground arith)
  | inr free ↦ inr (paid_world, free, ground arith, free, seen)
]
  where
    held : Account × List Ctx
    held = held_account e a w

    paid : Account
    paid = record (held.0) { balance = (held.0.balance + amount) % 2 ^ 256 }

    paid_world : World
    paid_world = record w {
      frame = record (w.frame) { accounts = put w.frame.accounts a paid };
      parents = held.1;
    }

    seen :
        (b : ℕ)
        → seen_balance e paid_world b
          ≡ (if b == a then (seen_balance e w a + amount) % 2 ^ 256 else seen_balance e w b)
    seen b = ground (arith, lookup-put w.frame.accounts a b paid, reads_stable e w.parents a b)

-- `deductAccount` of the running context: in a static context it is refused and changes nothing.
-- Otherwise it takes the amount from a balance that covers it, and else answers false and leaves
-- every balance that is seen.
pub deduct_account_balances :
    (e : Env) (a amount : ℕ) (w : World)
    → ((w.frame.is_static ≡ true) × (deduct_account e a amount w ≡ done false w))
      ⊎ ((w' : World) × (deduct_account e a amount w ≡ done (leb amount (seen_balance e w a)) w')
          × (w'.frame.is_static ≡ false)
          × ((b : ℕ)
              → seen_balance e w' b ≡ (
                  if (b == a) && leb amount (seen_balance e w a)
                  then seen_balance e w a - amount
                  else seen_balance e w b)))
unfolding deduct_account
deduct_account_balances e a amount w = elim (Bool-cases w.frame.is_static) [
  | inl static ↦ inl (static, ground arith)
  | inr free ↦ inr (left_world, ground arith, free, seen)
]
  where
    held : Account × List Ctx
    held = held_account e a w

    left : Account
    left =
        if ltb held.0.balance amount
        then held.0
        else record (held.0) { balance = held.0.balance - amount }

    left_world : World
    left_world = record w {
      frame = record (w.frame) { accounts = put w.frame.accounts a left };
      parents = held.1;
    }

    seen :
        (b : ℕ)
        → seen_balance e left_world b ≡ (
            if (b == a) && leb amount (seen_balance e w a)
            then seen_balance e w a - amount
            else seen_balance e w b)
    seen b = ground (arith, lookup-put w.frame.accounts a b left, reads_stable e w.parents a b)
