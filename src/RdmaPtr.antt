-- ===== src/RdmaPtr.antt =====
-- rdma/include/remus/rdma_ptr.h: a 16-bit machine id and a 48-bit address packed in one word.
-- A pointer is its `raw_` word; an operation that updates `*this` returns the new pointer.
pub mod Fields
pub mod Arith
pub mod Order
mod Tests
use Prim.Native.Nat.{bit_and, bit_or, bit_xor}
use remus_tutorial.Prelude.{ℕ, ◌+◌, ◌-◌, ◌*◌, ◌/◌, ◌^◌, ◌<◌, Bool, ltb, ◌==◌, u16, u64, sub64}

pub record RdmaPtr : Type 0 where
  pub raw_ : ℕ

abbrev bitsof : ℕ → ℕ
bitsof bytes = bytes * 8

-- `sizeof(uint64_t)` is 8 and `sizeof(id_type)` is 2.
abbrev pub address_bits : ℕ
address_bits = bitsof 8 - bitsof 2

abbrev pub address_bitmask : ℕ
address_bitmask = u64 (1 * 2 ^ address_bits) - 1

abbrev pub id_bitmask : ℕ
id_bitmask = bit_xor (2 ^ 64 - 1) address_bitmask

-- The word fits uint64_t.
abbrev pub IsWord : RdmaPtr → Type 0
IsWord p = p.raw_ < 2 ^ 64

pub null : RdmaPtr
null = record { raw_ = 0 }

unfoldable pub of_raw : ℕ → RdmaPtr
of_raw raw = record { raw_ = raw }

-- `rdma_ptr(id_type id, uint64_t address)`
unfoldable pub of_id_address : ℕ → ℕ → RdmaPtr
of_id_address id address = record {
  raw_ = bit_or (u64 (id * 2 ^ address_bits)) (bit_and address address_bitmask);
}

-- `rdma_ptr(uint64_t id, T *address)`: the id is narrowed to `id_type`.
pub of_id_pointer : ℕ → ℕ → RdmaPtr
of_id_pointer id address = of_id_address (u16 id) address

-- `-1` becomes a uint64_t first.
pub pointer_to : ℕ → RdmaPtr
pointer_to address = of_id_pointer (2 ^ 64 - 1) address

unfoldable pub id : RdmaPtr → ℕ
id p = bit_and p.raw_ id_bitmask / 2 ^ address_bits

unfoldable pub address : RdmaPtr → ℕ
address p = bit_and p.raw_ address_bitmask

unfoldable pub raw : RdmaPtr → ℕ
raw p = p.raw_

pub eq : RdmaPtr → RdmaPtr → Bool
eq p q = p.raw_ == q.raw_

-- `operator==(nullptr)` looks at the address alone.
pub eq_null : RdmaPtr → Bool
eq_null p = address p == 0

pub lt : RdmaPtr → RdmaPtr → Bool
lt p q = ltb (raw p) (raw q)

module _ (sizeof : ℕ) where
  pub add_assign : RdmaPtr → ℕ → RdmaPtr
  add_assign p s =
      let address' = bit_and (u64 (p.raw_ + u64 (sizeof * s))) address_bitmask in
      record { raw_ = bit_or (bit_and p.raw_ id_bitmask) address' }

  pub add : RdmaPtr → ℕ → RdmaPtr
  add p s = add_assign p s

  -- The pointer after the call, and what the call returns.
  pub pre_increment : RdmaPtr → RdmaPtr × RdmaPtr
  pre_increment p = let p' = add_assign p 1 in (p', p')

  pub post_increment : RdmaPtr → RdmaPtr × RdmaPtr
  post_increment p = (add_assign p 1, p)

  pub sub_assign : RdmaPtr → ℕ → RdmaPtr
  sub_assign p s =
      let address' = bit_and (sub64 p.raw_ (sizeof * s)) address_bitmask in
      record { raw_ = bit_or (bit_and p.raw_ id_bitmask) address' }

  pub sub : RdmaPtr → ℕ → RdmaPtr
  sub p s = sub_assign p s

  pub pre_decrement : RdmaPtr → RdmaPtr × RdmaPtr
  pre_decrement p = let p' = sub_assign p 1 in (p', p')

  pub post_decrement : RdmaPtr → RdmaPtr × RdmaPtr
  post_decrement p = (sub_assign p 1, p)
