-- ===== src/Import/Cache.antt =====
-- The cache over several imports: its invariant, the whole of `import_block`, and a second import.
use Prim.Native.String.{String}
use memfd_buffer_backend.Prelude.{
  ℕ, ◌+◌, ◌-◌, ◌^◌, ◌≡◌, refl, subst, ◌∙◌, inl, inr, Bool, true, false, ◌||◌, [], ◌∷◌, ◌++◌, some,
  ltb, get_elem?, arith, Bool-cases, Option-cases, get_elem?-append_length, get_elem?-append_last,
  get_elem?-length,
}
use memfd_buffer_backend.Errors.{Result, ok, err, invalid_metadata}
use memfd_buffer_backend.Header.{ControlHeader, payload_offset}
use memfd_buffer_backend.Pool.{PlatformMapping}
use memfd_buffer_backend.Handles.{Pid, with_header, is_empty}
use memfd_buffer_backend.Import.{
  ImportedBlock, CacheKey, Platform, Importer, same_key, find_key, validate_mapping, imported_of,
  use_cached, keep_valid, map_block, import_with, import_block,
}
use memfd_buffer_backend.Import.Outcome.{
  IsCached, Imported, Outcome, import_with-Outcome, same_key-name, validate_mapping_iff,
}

abbrev pub key_of : String → Pid → ℕ → CacheKey
key_of name p block_id = record { pid = p; block_id = block_id; ipc_name = name }

-- The test on the metadata at the start of `import_block`.
abbrev bad_metadata : String → ℕ → Bool
bad_metadata name mapped_size =
    is_empty name || (ltb mapped_size payload_offset || ltb (2 ^ 64 - 1) mapped_size)

keep_valid-IsCached :
    (m : Importer) (key : CacheKey) (b : ImportedBlock) (r : Result (Unit {0}))
    → b.ipc_name ≡ key.ipc_name
    → IsCached m
    → IsCached (keep_valid m key b r).1
unfolding keep_valid find_key
keep_valid-IsCached m key b (err e) named v = record { leads = v.leads }
keep_valid-IsCached m key b (ok u) named v = record {
  leads = λ k i hit. elim (Bool-cases (same_key key k)) [
    | inl same ↦ (
      b,
      subst (λ j. get_elem? (m.imported_blocks ++ b ∷ []) j ≡ some b) (ground (arith, hit, same))
          (get_elem?-append_length m.imported_blocks b),
      named ∙ same_key-name key k same,
    )
    | inr other ↦
        let (old, at, name) = v.leads k i (ground (arith, hit, other)) in
        (
          old,
          ground (
            arith,
            at,
            get_elem?-append_last m.imported_blocks b i,
            get_elem?-length m.imported_blocks,
          ),
          name,
        )
  ];
}

map_block-IsCached :
    (m : Importer) (key : CacheKey) (mapped_size payload_size uid : ℕ)
    (r : Result (PlatformMapping × ControlHeader))
    → IsCached m
    → IsCached (map_block m key mapped_size payload_size uid r).1
unfolding map_block
map_block-IsCached m key mapped_size payload_size uid (err e) v = v
map_block-IsCached m key mapped_size payload_size uid (ok (pm, h)) v =
    keep_valid-IsCached (record m { process = with_header m.process pm.mapping h }) key
      (imported_of pm key.ipc_name)
      (validate_mapping (with_header m.process pm.mapping h) (imported_of pm key.ipc_name)
        mapped_size payload_size uid)
      refl (record { leads = v.leads })

-- `import_block` keeps the cache in order.
pub import_block-IsCached :
    (platform : Platform) (m : Importer) (name : String) (p : Pid)
    (block_id mapped_size payload_size uid : ℕ)
    → IsCached m
    → IsCached (import_block platform m name p block_id mapped_size payload_size uid).1
unfolding import_block import_with
import_block-IsCached platform m name p block_id mapped_size payload_size uid v =
    elim (Bool-cases (bad_metadata name mapped_size)) [
      | inl bad ↦ rw (import_block, bad) v
      | inr good ↦ elim (Option-cases (find_key m.cache (key_of name p block_id))) [
        | inr (i, hit) ↦ rw (import_block, good, import_with, hit) v
        | inl miss ↦
            rw (import_block, good, import_with, miss)
              (map_block-IsCached (record m { imports = m.imports + 1 }) (key_of name p block_id)
                mapped_size payload_size uid (platform.import_mapping m.imports name mapped_size)
                (record { leads = v.leads }))
      ]
    ]

-- What `import_block` leads to. Where it returns a block, the block has the name of the key, agrees
-- with the descriptor and is in the cache, and no mapping was destroyed. Where it throws, the cache
-- is as before, and a mapping that this call has made was destroyed.
pub import_block-Outcome :
    (platform : Platform) (m : Importer) (name : String) (p : Pid)
    (block_id mapped_size payload_size uid : ℕ)
    → IsCached m
    → Outcome platform m
        (key_of name p block_id)
        mapped_size
        payload_size
        uid
        (import_block platform m name p block_id mapped_size payload_size uid)
unfolding import_block
import_block-Outcome platform m name p block_id mapped_size payload_size uid v =
    elim (Bool-cases (bad_metadata name mapped_size)) [
      | inl bad ↦
          rw (bad, import_block)
            (record { same_cache = refl; same_blocks = refl; nothing_left = inl (refl, inl refl) })
      | inr good ↦
          rw (good, import_block)
            (import_with-Outcome platform m (key_of name p block_id) mapped_size payload_size uid v)
    ]

import_block-bad :
    (platform : Platform) (m : Importer) (name : String) (p : Pid)
    (block_id mapped_size payload_size uid : ℕ)
    → bad_metadata name mapped_size ≡ true
    → import_block platform m name p block_id mapped_size payload_size uid
      ≡ (err invalid_metadata, m)
unfolding import_block
import_block-bad platform m name p block_id mapped_size payload_size uid bad =
    rw (bad, import_block) refl

import_block-hit :
    (platform : Platform) (m m' : Importer) (name : String) (p : Pid)
    (block_id mapped_size payload_size uid i : ℕ)
    → bad_metadata name mapped_size ≡ false
    → Imported platform m (key_of name p block_id) mapped_size payload_size uid m' i
    → import_block platform m' name p block_id mapped_size payload_size uid ≡ (ok i, m')
unfolding import_block import_with use_cached
import_block-hit platform m m' name p block_id mapped_size payload_size uid i good x =
    rw (good, import_block)
      (rw (x.cached, import_with)
        (rw (x.at, use_cached)
          (rw ((validate_mapping_iff m'.process x.block mapped_size payload_size uid).1 x.agrees)
            refl)))

-- An import that has returned a block returns it again, without a call of the platform and without
-- any change.
pub import_block_again :
    (platform : Platform) (m m' : Importer) (name : String) (p : Pid)
    (block_id mapped_size payload_size uid i : ℕ)
    → IsCached m
    → import_block platform m name p block_id mapped_size payload_size uid ≡ (ok i, m')
    → import_block platform m' name p block_id mapped_size payload_size uid ≡ (ok i, m')
import_block_again platform m m' name p block_id mapped_size payload_size uid i v e =
    elim (Bool-cases (bad_metadata name mapped_size)) [
      | inl bad ↦
          let refused =
            import_block-bad platform m name p block_id mapped_size payload_size uid bad in
          cc
      | inr good ↦
          import_block-hit platform m m' name p block_id mapped_size payload_size uid i good (
            subst (Outcome platform m (key_of name p block_id) mapped_size payload_size uid) e
              (import_block-Outcome platform m name p block_id mapped_size payload_size uid v))
    ]
