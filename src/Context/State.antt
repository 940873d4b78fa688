-- ===== src/Context/State.antt =====
-- The state of src/ethereum/EVMSimulationContext.h, and the monad of the code that changes it.
use komozoievm.External.{Account}
use komozoievm.Common.{
  ℕ, ◌+◌, ◌-◌, ◌%◌, ◌^◌, List, [], ◌∷◌, ◌≡◌, ap, Option, none, some, Bool, true, false, Map,
}

-- The fields of an `EVMSimulationContext`. A `Bytes` is the list of its bytes, and a null `Bytes`
-- is empty. The stack is listed from its top. `gas_limit` is `txInfo.gas.gasLimit`.
pub record Ctx : Type 0 where
  pub origin : ℕ
  pub caller : ℕ
  pub address : ℕ
  pub value : ℕ
  pub calldata : List ℕ
  pub return_data : List ℕ
  pub gas_limit : ℕ
  pub accounts : Map Account
  pub runcodes : Map (List ℕ)
  pub storage : Map (Map ℕ)
  pub transient : Map (Map ℕ)
  pub warm_accounts : List ℕ
  pub runcode : List ℕ
  pub pc : ℕ
  pub stack : List ℕ
  pub memory : List ℕ
  pub gas_used : ℕ
  pub is_static : Bool

-- What a tracer is handed: `call_trace_t` and `event_trace_t`.
pub data Trace : Type 0 where
  on_contract_call : (src dst : ℕ) (calldata returndata : List ℕ) (gas : ℕ) (success : Bool) → Trace
  on_event_log : (src : ℕ) (topics : List ℕ) (bytes : List ℕ) → Trace

-- The running context, the contexts that called it (`chain` and `returnContext`, innermost first),
-- and the traces so far, the last one first.
pub record World : Type 0 where
  pub frame : Ctx
  pub parents : List Ctx
  pub traces : List Trace

-- `fault`: the C++ would read or write outside an object, or leave the library's documented use.
-- `timeout`: the fuel of the model ran out.
pub data Res (A : Type 0) : Type 0 where
  done : A → World → Res A
  fault : Res A
  timeout : Res A

abbrev pub M : Type 0 → Type 0
M A = World → Res A

abbrev pub pure : {A : Type 0} → A → M A
pure a w = done a w

infixl 5 ◌>>=◌ ◌>>◌
abbrev pub ◌>>=◌ : {A B : Type 0} → M A → (A → M B) → M B
◌>>=◌ m f w = elim (m w) [ done a w' ↦ f a w' | fault ↦ fault | timeout ↦ timeout ]

abbrev pub ◌>>◌ : {B : Type 0} → M (Unit {0}) → M B → M B
m >> k = m >>= λ _. k

abbrev pub fail : {A : Type 0} → M A
fail w = fault

-- The running context.
abbrev pub frame : M Ctx
frame w = done w.frame w

abbrev pub modify : (Ctx → Ctx) → M (Unit {0})
modify f w = done tt (record w { frame = f w.frame })

-- `gasUsed += g`, a `uint32_t`.
unfoldable pub charge : ℕ → M (Unit {0})
charge g w =
    done tt (record w { frame = record (w.frame) { gas_used = (w.frame.gas_used + g) % 2 ^ 32 } })

-- `remainingGas`: the difference of two `uint32_t` wraps.
unfoldable pub remaining_gas : Ctx → ℕ
remaining_gas c = (c.gas_limit + 2 ^ 32 - c.gas_used) % 2 ^ 32

unfoldable pub pop_from : List ℕ → M ℕ
pop_from [] w = fault
pop_from (x ∷ s) w = done x (record w { frame = record (w.frame) { stack = s } })

unfoldable pub pop : M ℕ
unfolding pop_from
pop w = pop_from w.frame.stack w

unfoldable pub push : ℕ → M (Unit {0})
push x w = done tt (record w { frame = record (w.frame) { stack = x ∷ w.frame.stack } })

-- A computation behind one whose result is known.
pub bind_lem :
    {A B : Type 0} (m : M A) (f : A → M B) (w : World) {a : A} {w' : World}
    → m w ≡ done a w'
    → (m >>= f) w ≡ f a w'
bind_lem m f w h = ap (λ r. elim r [ done a w' ↦ f a w' | fault ↦ fault | timeout ↦ timeout ]) h

-- What a step reports, with the reason of a failure.
pub data Message : Type 0 where
  out_of_gas invalid_opcode reverted invalid_jump static_state : Message
  insufficient_eth stack_underflow precompile_failed : Message
  not_implemented : ℕ → Message

-- `tick_outcome_t`. The return data is `none` for a null pointer.
pub record Outcome : Type 0 where
  pub success : Bool
  pub return_data : Option (List ℕ)
  pub message : Option Message

abbrev pub succeeded : Outcome
succeeded = record { success = true; return_data = none; message = none }

abbrev pub failed : Message → Outcome
failed m = record { success = false; return_data = none; message = some m }
