-- ===== src/Linux/Shutdown.antt =====
-- The destruction of a pool on Linux: its broker first, then the mappings of its blocks.
use memfd_buffer_backend.Prelude.{
  ℕ, ◌+◌, ◌≡◌, ◌<◌, ◌≢◌, ◌&&◌, ltb, not, refl, ◌∙◌, List, [], ◌∷◌, Option, none, some, ◌==◌,
  if◌then◌else◌, arith, total,
}
use memfd_buffer_backend.Pool.{Block, Pool}
use memfd_buffer_backend.Pool.Destruction.{destroy_blocks, destroy_pool}
use memfd_buffer_backend.Os.{Log, alive, mapped_at, alive-le, mapped_at-le, unmapped}
use memfd_buffer_backend.Os.Accounts.{is}
use memfd_buffer_backend.Linux.{destroy_platform_mapping, close_handle}
use memfd_buffer_backend.Linux.Broker.{FdBroker, destroy_broker}
use memfd_buffer_backend.Linux.Broker.Descriptors.{Fits}
use memfd_buffer_backend.Linux.Broker.Destruction.{destroy_broker-Closed, destroy_broker-mapped_at}

-- How many blocks hold the descriptor, or the mapping, `x`.
abbrev pub handles : List Block → ℕ → ℕ
handles bs x = total (λ b. is x b.native_handle) bs

abbrev pub regions : List Block → ℕ → ℕ
regions bs x = total (λ b. is x (some b.mapping)) bs

-- Each block has a mapping of some size.
abbrev pub AllMapped : List Block → Type 0
AllMapped [] = Unit
AllMapped (b ∷ bs) = ((b.mapping ≢ 0) × (0 < b.mapped_size)) × AllMapped bs

close_handle-alive :
    (o : Option ℕ) (l : Log) (rest x : ℕ)
    → alive l x ≡ rest + is x o
    → alive (close_handle o l) x ≡ rest
unfolding close_handle alive
close_handle-alive none l rest x e = omega (arith, e)
close_handle-alive (some fd) l rest x e = ground (arith, e, alive-le l x)

destroy_blocks-alive :
    (others : ℕ → ℕ) (bs : List Block) (l : Log)
    → ((x : ℕ) → alive l x ≡ others x + handles bs x)
    → (x : ℕ) → alive (destroy_blocks destroy_platform_mapping bs l).1 x ≡ others x
unfolding destroy_blocks destroy_platform_mapping alive total
destroy_blocks-alive others [] l e x = omega (arith, e x)
destroy_blocks-alive others (b ∷ bs) l e x =
    destroy_blocks-alive others bs
      (destroy_platform_mapping b.native_handle b.mapping b.mapped_size l)
      (λ y.
        close_handle-alive b.native_handle
          (if not (b.mapping == 0) && ltb 0 b.mapped_size then unmapped b.mapping ∷ l else l)
          (others y + handles bs y) y (ground (arith, e y)))
      x

close_handle-mapped_at :
    (o : Option ℕ) (l : Log) (x : ℕ) → mapped_at (close_handle o l) x ≡ mapped_at l x
unfolding close_handle mapped_at
close_handle-mapped_at none l x = refl
close_handle-mapped_at (some fd) l x = refl

destroy_mapping-mapped_at :
    (o : Option ℕ) (a size : ℕ) (l : Log) (rest x : ℕ)
    → a ≢ 0
    → 0 < size
    → mapped_at l x ≡ rest + is x (some a)
    → mapped_at (destroy_platform_mapping o a size l) x ≡ rest
unfolding destroy_platform_mapping mapped_at
destroy_mapping-mapped_at o a size l rest x valid positive e =
    close_handle-mapped_at o (if not (a == 0) && ltb 0 size then unmapped a ∷ l else l) x
    ∙ ground (arith, e, mapped_at-le l x)

destroy_blocks-mapped_at :
    (others : ℕ → ℕ) (bs : List Block) (l : Log)
    → AllMapped bs
    → ((x : ℕ) → mapped_at l x ≡ others x + regions bs x)
    → (x : ℕ) → mapped_at (destroy_blocks destroy_platform_mapping bs l).1 x ≡ others x
unfolding destroy_blocks mapped_at total
destroy_blocks-mapped_at others [] l m e x = omega (arith, e x)
destroy_blocks-mapped_at others (b ∷ bs) l ((valid, positive), m) e x =
    destroy_blocks-mapped_at others bs
      (destroy_platform_mapping b.native_handle b.mapping b.mapped_size l) m
      (λ y.
        destroy_mapping-mapped_at b.native_handle b.mapping b.mapped_size l
          (others y + regions bs y) y valid positive (ground (arith, e y)))
      x

-- What a pool with its broker holds: the open descriptors and the mappings are those of others,
-- those of its blocks, and the descriptors of its broker.
pub record Holds (descriptors mappings : ℕ → ℕ) (b : FdBroker) (p : Pool) (l : Log) : Type 0 where
  pub fits : Fits (λ x. descriptors x + handles p.all_blocks x) b l
  pub mapped : (x : ℕ) → mapped_at l x ≡ mappings x + regions p.all_blocks x
  pub all_mapped : AllMapped p.all_blocks

-- The destructor of a pool leaves open the descriptors and the mappings of others, and no other:
-- those of the broker, of its registered blocks and of all blocks of the pool are given back.
pub pool_leaves_nothing :
    (descriptors mappings : ℕ → ℕ) (b : FdBroker) (p : Pool) (l : Log)
    → Holds descriptors mappings b p l
    → let r = destroy_pool destroy_platform_mapping (λ k. (destroy_broker (b, k)).1) p l in
      ((x : ℕ) → alive r.1 x ≡ descriptors x) × ((x : ℕ) → mapped_at r.1 x ≡ mappings x)
unfolding destroy_pool
pool_leaves_nothing descriptors mappings b p l v =
    let k = (destroy_broker (b, l)).1 in
    (
      destroy_blocks-alive descriptors p.all_blocks k
          (destroy_broker-Closed (λ x. descriptors x + handles p.all_blocks x) b l v.fits),
      destroy_blocks-mapped_at mappings p.all_blocks k v.all_mapped
          (λ x. destroy_broker-mapped_at b l x ∙ v.mapped x),
    )
