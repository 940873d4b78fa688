-- ===== src/Python/Calls/Runs.antt =====
-- What a run from Python leaves on the chain, and how `simulate` and `execute` of src/python.cpp agree.
use komozoievm.External.{Env}
use komozoievm.Context.State.{Ctx, World, Res, Outcome, done, fault, timeout}
use komozoievm.Context.Commit.{updates_of}
use komozoievm.Context.Commit.Lookup.{DistinctSlots}
use komozoievm.Machine.Run.{run_evm, transaction_context, world_of, simulate, execute, Execution}
use komozoievm.Python.Objects.{
  Block, EthereumTransaction, PyObject, Answer, answer, raised, faulted, unfinished, ◌>>=◌, Library,
}
use komozoievm.Python.Chain.{MockChain, all_sent}
use komozoievm.Python.Chain.Written.{Written, updates_of-Written}
use komozoievm.Python.Values.{gas_from_py}
use komozoievm.Python.Calls.{
  SimulationResult, seen, env_for, bytes_to_py, run_simulate, run_execute, chain_simulate_call,
  chain_execute_call, run_simulate_on_chain, run_execute_on_chain, build_call_transaction,
  block_from_py, transaction_from_py,
}
use komozoievm.Common.{
  ℕ, ◌≡◌, refl, sym, ap, ◌∙◌, [], Bool, true, false, Distinct, if◌then◌else◌, Bool-cases, inl, inr,
  ◌⊎◌,
}

abbrev pub result_of : Outcome → ℕ → SimulationResult
result_of o gas = record {
  success = o.success;
  return_data = bytes_to_py o.return_data;
  reason = o.message;
  gas_used = gas;
}

-- The run that both calls make.
abbrev run_of : Env → ℕ → MockChain → EthereumTransaction → Block → Res Outcome
run_of e fuel ch tx b =
    let f : Env = env_for e ch tx b in
    run_evm f fuel true (world_of (transaction_context f (seen tx)))

-- What `execute` makes of a run.
abbrev executed : MockChain → Res Outcome → Answer (SimulationResult × MockChain)
executed ch (done o w) =
    answer
      (result_of o w.frame.gas_used, if o.success then all_sent (updates_of w.frame) ch else ch)
executed ch fault = faulted
executed ch timeout = unfinished

abbrev execution_of : Res Outcome → Res Execution
execution_of r = elim r [
  | done o w ↦
      done
        (record {
          gas_used = w.frame.gas_used;
          outcome = o;
          updates = if o.success then updates_of w.frame else [];
        })
        w
  | fault ↦ fault
  | timeout ↦ timeout
]

abbrev sent_behind : MockChain → Res Execution → Answer (SimulationResult × MockChain)
sent_behind ch r = elim r [
  | done x w ↦ answer (result_of x.outcome x.gas_used, all_sent x.updates ch)
  | fault ↦ faulted
  | timeout ↦ unfinished
]

if_sent :
    (c : Ctx) (ch : MockChain) (ok : Bool)
    → all_sent (if ok then updates_of c else []) ch
      ≡ (if ok then all_sent (updates_of c) ch else ch)
unfolding all_sent
if_sent c ch true = refl
if_sent c ch false = refl

run_execute_lem :
    (e : Env) (fuel : ℕ) (ch : MockChain) (tx : EthereumTransaction) (b : Block)
    → run_execute e fuel ch tx b ≡ executed ch (run_of e fuel ch tx b)
unfolding run_execute execute
run_execute_lem e fuel ch tx b = at (run_of e fuel ch tx b)
  where
    at : (r : Res Outcome) → sent_behind ch (execution_of r) ≡ executed ch r
    at (done o w) =
        ap (λ after. answer (result_of o w.frame.gas_used, after)) (if_sent w.frame ch o.success)
    at fault = refl
    at timeout = refl

-- A run that fails leaves the chain of an `execute` as it was. One that succeeds leaves a chain that
-- answers for every account and slot with what the context held at the end of the run, where it held
-- any, and else as before, and for code as before. Either way the result tells the outcome and the
-- gas used. The context's maps hold a key once each, as hash maps do.
pub run_execute-Written :
    (e : Env) (fuel : ℕ) (ch : MockChain) (tx : EthereumTransaction) (b : Block) (o : Outcome)
    (w : World)
    → run_evm
        (env_for e ch tx b)
        fuel
        true
        (world_of (transaction_context (env_for e ch tx b) (seen tx)))
      ≡ done o w
    → Distinct w.frame.accounts
    → DistinctSlots w.frame.storage
    → ((o.success ≡ false)
        × (run_execute e fuel ch tx b ≡ answer (result_of o w.frame.gas_used, ch)))
      ⊎ ((o.success ≡ true)
          × (after : MockChain) × (run_execute e fuel ch tx b
              ≡ answer (result_of o w.frame.gas_used, after))
          × Written w.frame ch after)
run_execute-Written e fuel ch tx b o w ran da ds = elim (Bool-cases o.success) [
  | inl ok ↦ inr (
    ok,
    all_sent (updates_of w.frame) ch,
    whole ∙ ap left ok,
    updates_of-Written w.frame ch da ds,
  )
  | inr bad ↦ inl (bad, whole ∙ ap left bad)
]
  where
    left : Bool → Answer (SimulationResult × MockChain)
    left ok =
        answer (result_of o w.frame.gas_used, if ok then all_sent (updates_of w.frame) ch else ch)

    whole : run_execute e fuel ch tx b ≡ left o.success
    whole = run_execute_lem e fuel ch tx b ∙ ap (executed ch) ran

-- The result alone, without its gas.
abbrev pub without_gas : SimulationResult × MockChain → SimulationResult
without_gas (r, ch) = record r { gas_used = 0 }

abbrev pub simulated : Answer (SimulationResult × MockChain) → Answer SimulationResult
simulated (answer r) = answer (without_gas r)
simulated (raised x) = raised x
simulated faulted = faulted
simulated unfinished = unfinished

run_simulate_lem :
    (e : Env) (fuel : ℕ) (ch : MockChain) (tx : EthereumTransaction) (b : Block)
    → run_simulate e fuel ch tx b ≡ simulated (run_execute e fuel ch tx b)
unfolding run_simulate simulate
run_simulate_lem e fuel ch tx b =
    at (run_of e fuel ch tx b) ∙ sym (ap simulated (run_execute_lem e fuel ch tx b))
  where
    at :
        (r : Res Outcome)
        → (elim r [ done o w ↦ answer (result_of o 0) | fault ↦ faulted | timeout ↦ unfinished ])
          ≡ simulated (executed ch r)
    at (done o w) = refl
    at fault = refl
    at timeout = refl

through :
    {A : Type 0} (m : Answer A) (f : A → Answer SimulationResult)
    (g : A → Answer (SimulationResult × MockChain))
    → ((a : A) → f a ≡ simulated (g a))
    → (m >>= f) ≡ simulated (m >>= g)
through (answer a) f g h = h a
through (raised x) f g h = refl
through faulted f g h = refl
through unfinished f g h = refl

-- A call of `simulate` answers as `execute` does on the same arguments, with a gas of 0: the same
-- exception, or the same success, data and reason. Both hold for the calls that build a transaction
-- and for those that are given one.
pub simulate-execute :
    (lib : Library) (e : Env) (fuel : ℕ) (ch : MockChain)
    (dst src calldata value block gas given : PyObject) (b : Block)
    → (chain_simulate_call lib e fuel ch dst src calldata value block gas
        ≡ simulated (chain_execute_call lib e fuel ch dst src calldata value block gas))
      × (run_simulate_on_chain lib e fuel ch given b
          ≡ simulated (run_execute_on_chain lib e fuel ch given b))
unfolding chain_simulate_call chain_execute_call run_simulate_on_chain run_execute_on_chain
simulate-execute lib e fuel ch dst src calldata value block gas given b = (
  through (gas_from_py gas) _ _ λ limit.
      through (build_call_transaction lib dst src calldata value limit) _ _
        λ tx. through (block_from_py lib e block) _ _ λ c. run_simulate_lem e fuel ch tx c,
  through (transaction_from_py lib given) _ _ λ tx. run_simulate_lem e fuel ch tx b,
)
