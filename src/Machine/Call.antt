-- ===== src/Machine/Call.antt =====
-- Calls between contracts: `callRaw`, `generateCall` and `generateStaticCall` of
-- src/ethereum/EVM.cpp. The run of the callee is an argument.
pub mod Isolation
use komozoievm.External.{Env}
use komozoievm.Context.State.{
  Ctx, World, Res, done, fault, M, Trace, on_contract_call, Outcome, succeeded, failed, out_of_gas,
  precompile_failed, frame, modify, pure, fail, pop, push, charge, remaining_gas, ◌>>=◌, ◌>>◌,
}
use komozoievm.Context.Memory.{expand_memory, read_memory, write_memory}
use komozoievm.Context.Overlay.{read_code}
use komozoievm.Context.Commit.{write_changes_to}
use komozoievm.Machine.Op.{CallOp, call, callcode, delegatecall, staticcall}
use komozoievm.Machine.Data.{to_address}
use komozoievm.Machine.Precompiled.{call_precompiled}
use komozoievm.Common.{
  ℕ, ◌*◌, ◌/◌, ◌%◌, ◌^◌, List, [], ◌∷◌, Option, none, some, Bool, true, false, ℤ, pos, negsuc, ltb,
  ◌==◌, if◌then◌else◌, take, min, not, ◌&&◌, ◌||◌, contains,
}

-- `min_call_info_t`, with offsets into the memory for its pointers.
pub record CallInfo : Type 0 where
  pub args : ℕ
  pub args_size : ℕ
  pub ret : ℕ
  pub ret_size : ℕ
  pub value : ℕ
  pub gas_limit : ℕ
  pub is_static : Bool
  pub is_delegate : Bool

-- `warmAccounts.add`.
abbrev add_to : ℕ → List ℕ → List ℕ
add_to a s = if contains a s then s else a ∷ s

-- The constructor of `EVMSimulationContext` for a call out of a context. `origin` is the caller.
unfoldable pub sub_context : Ctx → ℕ → List ℕ → List ℕ → ℕ → ℕ → ℕ → Bool → Ctx
sub_context c gas code calldata src dst value is_static = record {
  origin = src;
  caller = src;
  address = dst;
  value = value;
  calldata = calldata;
  return_data = [];
  gas_limit = gas;
  accounts = [];
  runcodes = [];
  storage = [];
  transient = [];
  warm_accounts = add_to src (add_to dst c.warm_accounts);
  runcode = code;
  pc = 0;
  stack = [];
  memory = [];
  gas_used = 0;
  is_static = is_static;
}

enter : Ctx → M (Unit {0})
enter sub w = done tt (record w { frame = sub; parents = w.frame ∷ w.parents })

leave_to : Ctx → List Ctx → World → Res Ctx
leave_to sub [] w = fault
leave_to sub (p ∷ ps) w = done sub (record w { frame = p; parents = ps })

-- Back to the calling context; the answer is the context that has ended.
leave : M Ctx
unfolding leave_to
leave w = leave_to w.frame w.parents w

-- The gas of a call: what was asked for, at most 63/64 of what is left, in 32-bit arithmetic.
unfoldable pub call_gas : Ctx → ℕ → ℕ
call_gas c asked = min asked (remaining_gas c * 63 % 2 ^ 32 / 64)

abbrev pub bytes_of : Option (List ℕ) → List ℕ
bytes_of none = []
bytes_of (some bytes) = bytes

abbrev pub trace : Trace → M (Unit {0})
trace t w = done tt (record w { traces = t ∷ w.traces })

-- The caller's side of a call that has come back.
unfoldable pub finish_call : CallInfo → ℕ → ℕ → Outcome → Ctx → M Outcome
unfolding push write_memory charge
finish_call info src dst o sub = do
  push (if o.success then 1 else 0)
  write_memory info.ret (take info.ret_size (bytes_of o.return_data))
  modify (if o.success && not info.is_static then write_changes_to sub else λ c. c)
  modify (λ c. record c { return_data = bytes_of o.return_data })
  trace (on_contract_call src dst sub.calldata (bytes_of o.return_data) sub.gas_used o.success)
  charge sub.gas_used
  pure succeeded

unfoldable pub call_raw : (Bool → M Outcome) → List ℕ → CallInfo → ℕ → ℕ → M Outcome
unfolding read_memory enter leave call_gas
call_raw run code info src dst = do
  c ← frame
  let go = (do
    calldata ← read_memory info.args info.args_size
    enter (
        sub_context c (call_gas c info.gas_limit) code calldata src dst info.value
          (c.is_static || info.is_static))
    o ← run (not info.is_delegate)
    sub ← leave
    finish_call info src dst o sub)
  if remaining_gas c == 0 then pure (failed out_of_gas) else go

-- An offset or a size behind `expandMemory`, which refuses a negative one.
abbrev to_offset : ℤ → M ℕ
to_offset (pos n) = pure n
to_offset (negsuc n) = fail

-- A call of one of the contracts below address 16.
unfoldable pub run_precompiled : Env → ℕ → CallInfo → M Outcome
unfolding push charge call_precompiled
run_precompiled e target info = do
  c ← frame
  (ok, gas) ←
      call_precompiled e target info.args info.args_size info.ret info.ret_size (remaining_gas c)
  push (if ok then 1 else 0)
  charge gas
  pure (record {
    success = true;
    return_data = none;
    message = if ok then none else some precompile_failed;
  })

-- Both regions are expanded before either pointer is taken.
abbrev with_regions : Env → ℕ → ℕ → ℕ → ℕ → (ℕ → ℕ → ℕ → ℕ → M Outcome) → M Outcome
with_regions e args args_size ret ret_size k = do
  args_ok ← expand_memory e args args_size
  let rest = (do
    ret_ok ← expand_memory e ret ret_size
    let go = (do
      a ← to_offset (e.to_int args)
      n ← to_offset (e.to_int args_size)
      r ← to_offset (e.to_int ret)
      m ← to_offset (e.to_int ret_size)
      k a n r m)
    if ret_ok then go else pure (failed out_of_gas))
  if args_ok then rest else pure (failed out_of_gas)

-- The second argument of `generateCall` is `sameTxData`; the source does not read `localStorage`.
unfoldable pub generate_call : Env → (Bool → M Outcome) → Bool → M Outcome
unfolding pop expand_memory run_precompiled call_raw
generate_call e run same = do
  gas ← pop
  t ← pop
  c ← frame
  value ← (if same then pure c.value else pop)
  args ← pop
  args_size ← pop
  ret ← pop
  ret_size ← pop
  let target = to_address t
  with_regions e args args_size ret ret_size (λ a n r m. do
    let info : CallInfo = record {
      args = a;
      args_size = n;
      ret = r;
      ret_size = m;
      value = value;
      gas_limit = gas;
      is_static = false;
      is_delegate = same;
    }
    let contract = (do
      code ← read_code e target
      call_raw run code info (if same then c.caller else c.address)
          (if same then c.address else target))
    if ltb target 16 then run_precompiled e target info else contract)

unfoldable pub generate_static_call : Env → (Bool → M Outcome) → M Outcome
unfolding pop expand_memory run_precompiled call_raw
generate_static_call e run = do
  gas ← pop
  t ← pop
  args ← pop
  args_size ← pop
  ret ← pop
  ret_size ← pop
  c ← frame
  let target = to_address t
  with_regions e args args_size ret ret_size (λ a n r m. do
    let info : CallInfo = record {
      args = a;
      args_size = n;
      ret = r;
      ret_size = m;
      value = 0;
      gas_limit = gas;
      is_static = true;
      is_delegate = false;
    }
    let contract = (do code ← read_code e target; call_raw run code info c.address target)
    if ltb target 16 then run_precompiled e target info else contract)

unfoldable pub exec_call : Env → (Bool → M Outcome) → CallOp → M Outcome
unfolding charge generate_call generate_static_call
exec_call e run call = do charge 100; generate_call e run false
exec_call e run callcode = generate_call e run false
exec_call e run delegatecall = do charge 100; generate_call e run true
exec_call e run staticcall = do charge 100; generate_static_call e run
