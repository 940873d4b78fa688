-- ===== src/Python/Calls/Built.antt =====
-- Which transaction src/python.cpp builds for a call.
use komozoievm.Python.Objects.{PyObject, answer, Library, EthereumTransaction}
use komozoievm.Python.Values.{address_from_py, u256_from_py}
use komozoievm.Python.Calls.{init_from, calldata_from_py, build_call_transaction}
use komozoievm.Common.{
  ℕ, zero, suc, [], ◌∷◌, ◌%◌, ◌^◌, ◌≤◌, ◌<◌, ◌≡◌, refl, ap, List, take, length, arith, length-take,
}
use native.Mathlib.Nat.{mod-lt}

-- A `uint256_t` that fits 64 bits is converted to itself, and the result fits in any case.
pub record Converts (lib : Library) : Type 0 where
  pub keeps : (x : ℕ) → x < 2 ^ 64 → lib.to_uint64 x ≡ x
  pub fits : (x : ℕ) → lib.to_uint64 x < 2 ^ 64

-- What a transaction carries of the call that it is built for.
pub record Carries (input : List ℕ) (from to amount gas : ℕ) (tx : EthereumTransaction)
    : Type 0 where
  pub from_sender : tx.sender ≡ from
  pub to_recipient : tx.recipient ≡ to
  pub under_limit : tx.gas.gas_limit ≡ gas
  pub small_value : amount < 2 ^ 64 → tx.value ≡ amount
  pub large_value : 2 ^ 64 ≤ amount → tx.value < amount
  pub short_input : length input < 2 ^ 16 → tx.input ≡ input
  pub long_input : 2 ^ 16 ≤ length input → length tx.input < length input

take_all : (xs : List ℕ) (n : ℕ) → n ≡ length xs → take n xs ≡ xs
take_all [] zero h = refl
take_all [] (suc n) h = refl
take_all (x ∷ xs) zero h = ground (arith, h)
take_all (x ∷ xs) (suc n) h = ap (λ ys. x ∷ ys) (take_all xs n (omega (arith, h)))

small_width : 0 < 2 ^ 16
small_width = omega arith

-- Where the objects of a call are taken as call data, addresses and an amount, a transaction is
-- built between these addresses, under the gas limit. An amount below 2 ^ 64 is its value, and call
-- data of fewer than 2 ^ 16 bytes its input; of a larger amount or longer call data it carries less.
pub build_call_transaction-Carries :
    (lib : Library) (dst src calldata value : PyObject) (input : List ℕ)
    (from to amount gas_limit : ℕ)
    → Converts lib
    → calldata_from_py calldata ≡ answer input
    → address_from_py lib src ≡ answer from
    → address_from_py lib dst ≡ answer to
    → u256_from_py lib value ≡ answer amount
    → (tx : EthereumTransaction) × (build_call_transaction lib dst src calldata value gas_limit
        ≡ answer tx)
      × Carries input from to amount gas_limit tx
unfolding build_call_transaction init_from
build_call_transaction-Carries lib dst src calldata value input from to amount gas_limit c i f t a =
    (
      built,
      rw (i, f, t, a) refl,
      record {
        from_sender = refl;
        to_recipient = refl;
        under_limit = refl;
        small_value = λ small. c.keeps amount small;
        large_value = λ large. omega (arith, large, c.fits amount);
        short_input = λ short. take_all input _ (omega (arith, short));
        long_input = λ long. omega (
          arith,
          long,
          length-take (length input % 2 ^ 16) input,
          mod-lt (length input) small_width,
        );
      },
    )
  where
    built : EthereumTransaction
    built =
        init_from from to
          (record {
            gas_limit = gas_limit;
            gas_price = 0;
            max_fee_per_gas = 0;
            max_priority_fee_per_gas = 0;
          })
          input 0 (lib.to_uint64 amount)
