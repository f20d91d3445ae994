-- ===== src/Import/Outcome.antt =====
-- What an import leads to, and what it leaves in the cache.
use text.Mathlib.TextPositions.{eq_refl}
use text.Mathlib.TextEquality.{eq_iff}
use memfd_buffer_backend.Prelude.{
  ℕ, ◌+◌, ◌≤◌, ◌≡◌, refl, ◌≢◌, ◌↔◌, ◌⊎◌, inl, inr, true, ◌∷◌, Option, none, some, get_elem?, arith,
  Option-cases, get_elem?-append_length,
}
use memfd_buffer_backend.Errors.{Result, ok, err, Error}
use memfd_buffer_backend.Header.{ControlHeader, control_magic, control_abi_version, payload_offset}
use memfd_buffer_backend.Pool.{PlatformMapping}
use memfd_buffer_backend.Handles.{Process, with_header}
use memfd_buffer_backend.Import.{
  ImportedBlock, CacheKey, Platform, Importer, same_key, find_key, validate_mapping, imported_of,
  found, use_cached, keep_valid, map_block, import_with,
}

-- A block whose mapping and control header agree with a descriptor.
pub record Agrees (p : Process) (b : ImportedBlock) (mapped_size payload_size uid : ℕ)
    : Type 0 where
  pub address : ℕ
  pub at : b.control ≡ some address
  pub mapped : b.mapped_size ≡ mapped_size
  pub within : payload_offset + payload_size ≤ mapped_size
  pub magic : (p.pool.headers address).magic ≡ control_magic
  pub version : (p.pool.headers address).abi_version ≡ control_abi_version
  pub payload : (p.pool.headers address).payload_size ≡ payload_size
  pub published : (p.pool.headers address).ipc_uid ≡ uid
  pub nonzero : uid ≢ 0

-- `validate_mapping` accepts exactly the blocks that agree with the descriptor: the size of the
-- mapping, room for the payload in it, the magic, the version, the payload size and a uid that is
-- not zero.
pub validate_mapping_iff :
    (p : Process) (b : ImportedBlock) (mapped_size payload_size uid : ℕ)
    → (validate_mapping p b mapped_size payload_size uid ≡ ok tt)
      ↔ Agrees p b mapped_size payload_size uid
unfolding validate_mapping
validate_mapping_iff p b mapped_size payload_size uid = (
  λ e. accepted p b.control refl e,
  λ v.
      ground
        (arith, v.at, v.mapped, v.within, v.magic, v.version, v.payload, v.published, v.nonzero),
)
  where
    accepted :
        (p : Process) (control : Option ℕ)
        → b.control ≡ control
        → validate_mapping p b mapped_size payload_size uid ≡ ok tt
        → Agrees p b mapped_size payload_size uid
    accepted p none at e = ground (arith, e, at)
    accepted p (some a) at e = record {
      address = a;
      at = at;
      mapped = ground (arith, e, at);
      within = ground (arith, e, at);
      magic = ground (arith, e, at);
      version = ground (arith, e, at);
      payload = ground (arith, e, at);
      published = ground (arith, e, at);
      nonzero = ground (arith, e, at);
    }

pub same_key_refl : (k : CacheKey) → same_key k k ≡ true
unfolding same_key
same_key_refl k = ground (arith, eq_refl k.ipc_name)

pub same_key-name : (k l : CacheKey) → same_key k l ≡ true → k.ipc_name ≡ l.ipc_name
unfolding same_key
same_key-name k l e = (eq_iff k.ipc_name l.ipc_name).0 (ground (arith, e))

-- Every key leads to a block of its name.
pub record IsCached (m : Importer) : Type 0 where
  pub leads :
      (k : CacheKey) (i : ℕ)
      → find_key m.cache k ≡ some i
      → (b : ImportedBlock) × (get_elem? m.imported_blocks i ≡ some b) × (b.ipc_name ≡ k.ipc_name)

module _ (platform : Platform) (m : Importer) (key : CacheKey)
    (mapped_size payload_size uid : ℕ) where
  -- What a successful import has led to.
  pub record Imported (m' : Importer) (i : ℕ) : Type 0 where
    pub block : ImportedBlock
    pub at : get_elem? m'.imported_blocks i ≡ some block
    pub named : block.ipc_name ≡ key.ipc_name
    pub agrees : Agrees m'.process block mapped_size payload_size uid
    pub cached : find_key m'.cache key ≡ some i
    pub same_destroyed : m'.destroyed ≡ m.destroyed

  -- The platform's answer to a call.
  abbrev pub answer : Result (PlatformMapping × ControlHeader)
  answer = platform.import_mapping m.imports key.ipc_name mapped_size

  -- A refused import: nothing was mapped, or the mapping was destroyed.
  pub record Refused (m' : Importer) : Type 0 where
    pub same_cache : m'.cache ≡ m.cache
    pub same_blocks : m'.imported_blocks ≡ m.imported_blocks
    pub nothing_left :
        (m'.destroyed ≡ m.destroyed) × ((m'.imports ≡ m.imports) ⊎ ((e : Error) × (answer ≡ err e)))
        ⊎ ((pm : PlatformMapping) × (h : ControlHeader) × (answer ≡ ok (pm, h))
            × (m'.destroyed ≡ imported_of pm key.ipc_name ∷ m.destroyed))

  abbrev pub Outcome : Result ℕ × Importer → Type 0
  Outcome (ok i, m') = Imported m' i
  Outcome (err e, m') = Refused m'

  use_cached-Outcome :
      (i : ℕ)
      → IsCached m
      → find_key m.cache key ≡ some i
      → Outcome (use_cached m i mapped_size payload_size uid, m)
  unfolding use_cached
  use_cached-Outcome i v hit =
      let (b, at, named) = v.leads key i hit in
      rw (use_cached, at)
        (checked b at named (validate_mapping m.process b mapped_size payload_size uid) refl)
    where
      checked :
          (b : ImportedBlock)
          → get_elem? m.imported_blocks i ≡ some b
          → b.ipc_name ≡ key.ipc_name
          → (r : Result (Unit {0})) → validate_mapping m.process b mapped_size payload_size uid ≡ r
          → Outcome (found i r, m)
      checked b at named (ok u) valid = record {
        block = b;
        at = at;
        named = named;
        agrees = (validate_mapping_iff m.process b mapped_size payload_size uid).0 valid;
        cached = hit;
        same_destroyed = refl;
      }
      checked b at named (err e) valid = record {
        same_cache = refl;
        same_blocks = refl;
        nothing_left = inl (refl, inl refl);
      }

  map_block-Outcome :
      (r : Result (PlatformMapping × ControlHeader))
      → answer ≡ r
      → Outcome
          (map_block (record m { imports = m.imports + 1 }) key mapped_size payload_size uid r)
  unfolding map_block keep_valid find_key
  map_block-Outcome (err e) made = record {
    same_cache = refl;
    same_blocks = refl;
    nothing_left = inl (refl, inr (e, made));
  }
  map_block-Outcome (ok (pm, h)) made =
      kept
        (validate_mapping (with_header m.process pm.mapping h) (imported_of pm key.ipc_name)
          mapped_size payload_size uid)
        refl
    where
      kept :
          (r : Result (Unit {0}))
          → validate_mapping
              (with_header m.process pm.mapping h)
              (imported_of pm key.ipc_name)
              mapped_size
              payload_size
              uid
            ≡ r
          → Outcome (
              keep_valid
                (record m { imports = m.imports + 1; process = with_header m.process pm.mapping h })
                key
                (imported_of pm key.ipc_name)
                r)
      kept (ok u) valid = record {
        block = imported_of pm key.ipc_name;
        at = get_elem?-append_length m.imported_blocks (imported_of pm key.ipc_name);
        named = refl;
        agrees =
            (validate_mapping_iff (with_header m.process pm.mapping h) (imported_of pm key.ipc_name)
                mapped_size payload_size uid).0
              valid;
        cached = ground (arith, same_key_refl key);
        same_destroyed = refl;
      }
      kept (err e) valid = record {
        same_cache = refl;
        same_blocks = refl;
        nothing_left = inr (pm, h, made, refl);
      }

  pub import_with-Outcome :
      IsCached m
      → Outcome (import_with platform m key mapped_size payload_size uid (find_key m.cache key))
  unfolding import_with
  import_with-Outcome v = elim (Option-cases (find_key m.cache key)) [
    | inl miss ↦ rw (miss, import_with) (map_block-Outcome answer refl)
    | inr (i, hit) ↦ rw (hit, import_with) (use_cached-Outcome i v hit)
  ]
