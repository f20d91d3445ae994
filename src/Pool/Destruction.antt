-- ===== src/Pool/Destruction.antt =====
-- The destructor of the pool, for the `destroy_platform_mapping` of a platform and the destructor
-- of its broker; and `register_block_for_ipc`, which asks the broker.
use Prim.Native.String.{String}
use memfd_buffer_backend.Prelude.{List, [], ◌∷◌, Option, none, some, ℕ}
use memfd_buffer_backend.Errors.{Result, ok}
use memfd_buffer_backend.Pool.{Block, Pool}
use memfd_buffer_backend.Os.{Log}

-- A block whose mapping has been given back.
abbrev pub cleared : Block → Block
cleared b = record b { control = none; native_handle = none; mapping = 0 }

module _ (destroy : Option ℕ → ℕ → ℕ → Log → Log) where
  unfoldable pub destroy_blocks : List Block → Log → List Block × Log
  destroy_blocks [] l = ([], l)
  destroy_blocks (b ∷ bs) l =
      let (bs', l') = destroy_blocks bs (destroy b.native_handle b.mapping b.mapped_size l) in
      (cleared b ∷ bs', l')

  unfoldable pub destroy_pool : (Log → Log) → Pool → Log → Pool × Log
  unfolding destroy_blocks
  destroy_pool reset_broker p l =
      let (bs, l') = destroy_blocks p.all_blocks (reset_broker l) in
      (record p { all_blocks = bs }, l')

-- `register_block_for_ipc`, for the broker's answer; a null block has no name.
unfoldable pub register_block_for_ipc {ℓ} :
    {State : Type ℓ}
    → (State → Block → Result String × (State × Block))
    → State
    → Option Block
    → Result String × (State × Option Block)
register_block_for_ipc register s none = (ok "", (s, none))
register_block_for_ipc register s (some b) = let (r, (s', b')) = register s b in (r, (s', some b'))
