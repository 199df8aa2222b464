-- ===== src/Segment.antt =====
-- rdma/include/remus/segment.h: where the memory of a segment is put, and how a segment is made and
-- registered. The table of mapped regions, `mmap` and the RDMA library are parameters; `roundup` is
-- the macro of the C library.
pub mod Places
mod Tests
use Prim.Native.Nat.{bit_and}
use remus_tutorial.Prelude.{
  ℕ, ◌+◌, ◌^◌, ◌==◌, ltb, leb, Bool, true, false, not, ◌&&◌, if◌then◌else◌, u64, sub64, Option,
  none, some, Outcome, done, abort, ◌>>=◌, ◌>>◌, assert, List, [], ◌∷◌,
}

-- The bounds of a mapped region, where a line of the table can be read.
abbrev pub Line : Type 0
Line = Option (ℕ × ℕ)

-- `x && !(x & (x - 1))`
abbrev pub is_power : ℕ → Bool
is_power x = not (x == 0) && bit_and x (sub64 x 1) == 0

pub record Segment : Type 0 where
  pub raw_ : ℕ
  pub capacity_ : ℕ
  pub from_huge_ : Bool

-- `GetNumHugePages`: 0 where the file cannot be read.
abbrev get_num_huge_pages : Option ℕ → ℕ
get_num_huge_pages none = 0
get_num_huge_pages (some pages) = pages

module _ (roundup : ℕ → ℕ → ℕ) where
  -- The loop over the lines, from a first guess on.
  unfoldable pub scan : ℕ → List Line → ℕ → ℕ
  scan len [] addr = addr
  scan len (none ∷ lines) addr = scan len lines addr
  scan len (some (l, u) ∷ lines) addr =
      let past = scan len lines (roundup u len) in
      let on = scan len lines addr in
      if leb (u64 (addr + len)) l then addr else (if ltb addr u then past else on)

  -- `none` for the table is a file that cannot be opened.
  unfoldable pub find_mmap_location : ℕ → ℕ → Option (List Line) → Outcome (Option ℕ)
  find_mmap_location min_addr len file = do
    assert (is_power min_addr)
    assert (is_power len)
    elim file [
      | none ↦ done none
      | some lines ↦
          (let addr = scan len lines (roundup min_addr len) in
            if ltb (u64 (addr + len)) addr then done none else done (some addr))
    ]

  -- The constructor. `value()` throws where no place was found; `map` is `mmap`, which may fail.
  unfoldable pub construct :
      ℕ → Option ℕ → Option (List Line) → (ℕ → ℕ → Bool → Option ℕ) → Outcome Segment
  construct capacity huge_pages file map = do
    hint ← find_mmap_location (2 ^ 35) capacity file
    let from_huge = ltb 0 (get_num_huge_pages huge_pages)
    elim hint [
      | none ↦ abort
      | some addr ↦ elim (map addr capacity from_huge) [
        | none ↦ abort
        | some raw ↦ done (record { raw_ = raw; capacity_ = capacity; from_huge_ = from_huge })
      ]
    ]

-- `registerWithPd`, for a protection domain that may be null and the library's `ibv_reg_mr`: the
-- region, or the end of the process.
unfoldable pub register_with_pd : Option ℕ → (ℕ → ℕ → ℕ → Bool → Option ℕ) → Segment → Outcome ℕ
register_with_pd none reg_mr s = abort
register_with_pd (some pd) reg_mr s = elim (reg_mr pd s.raw_ s.capacity_ s.from_huge_) [
  | none ↦ abort
  | some mr ↦ done mr
]
