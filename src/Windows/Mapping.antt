-- ===== src/Windows/Mapping.antt =====
-- Which handles and views are left open: on every path, those that the result holds.
use Prim.Native.String.{String}
use memfd_buffer_backend.Prelude.{
  ℕ, zero, suc, ◌+◌, ◌≡◌, ◌∙◌, refl, Bool, false, inl, inr, ◌∷◌, Option, none, some, arith,
  Bool-cases, Option-cases, ap,
}
use memfd_buffer_backend.Os.{Os, Log, opened, alive, mapped_at, closed, IsSound, map_shared}
use memfd_buffer_backend.Os.Accounts.{is, Accounts}
use memfd_buffer_backend.Windows.{
  Created, mapping_name, map_view, map_opened, import_platform_mapping, try_names, map_created,
  finish_create, create_platform_mapping, destroy_platform_mapping,
}

module _ {os : Os} (sound : IsSound os) where
  map_view-Accounts :
      (l k : Log) (h size : ℕ) (name : String)
      → alive l h ≡ 0
      → ((x : ℕ) → (alive k x ≡ alive l x + is x (some h)) × (mapped_at k x ≡ mapped_at l x))
      → let r = map_view h size name (map_shared os k) in
        Accounts destroy_platform_mapping l r.0 r.1
  unfolding map_view alive mapped_at destroy_platform_mapping
  map_view-Accounts l k h size name new open_handle = elim (Option-cases (os.address k)) [
    | inl e ↦
        rw (e, map_view)
          (record {
            descriptors = λ x. ground (arith, open_handle x, new);
            regions = λ x. ground (arith, open_handle x);
            no_descriptor_left = λ x. ground (arith, open_handle x, new);
            no_region_left = λ x. ground (arith, open_handle x);
          })
    | inr (a, e) ↦
        rw (e, map_view)
          (record {
            descriptors = λ x. ground (arith, open_handle x);
            regions = λ x. ground (arith, open_handle x, sound.new_address k a e);
            no_descriptor_left = λ x. ground (arith, open_handle x, new);
            no_region_left = λ x. ground (arith, open_handle x, sound.new_address k a e);
          })
  ]

  -- Whatever the system answers, `import_platform_mapping` leaves open the handle and the view that
  -- it returns, and none where it throws; destroying the result leaves none.
  pub windows_import-Accounts :
      (name : String) (size : ℕ) (l : Log)
      → let r = import_platform_mapping os name size l in
        Accounts destroy_platform_mapping l r.0 r.1
  unfolding import_platform_mapping map_opened alive mapped_at
  windows_import-Accounts name size l = elim (Option-cases (os.descriptor l)) [
    | inl e ↦
        rw (e, import_platform_mapping)
          (record {
            descriptors = λ x. ground arith;
            regions = λ x. ground arith;
            no_descriptor_left = λ x. refl;
            no_region_left = λ x. refl;
          })
    | inr (h, e) ↦
        rw (e, import_platform_mapping)
          (map_view-Accounts l (opened h ∷ l) h size name (sound.new_descriptor l h e)
            (λ x. ground (arith, sound.new_descriptor l h e)))
  ]

  module _ (already_exists : Log → Bool) (to_string : ℕ → String) (process_id : ℕ) where
    -- The loop has opened the handle that it leaves, which is then one of a new mapping.
    record Tried (l : Log) (c : Created) (k : Log) : Type 0 where
      open_handle : (x : ℕ) → alive k x ≡ alive l x + is x c.mapping_handle
      no_view : (x : ℕ) → mapped_at k x ≡ mapped_at l x
      new : (h : ℕ) → c.mapping_handle ≡ some h → (alive l h ≡ 0) × (c.already_exists ≡ false)

    try_names-Tried :
        (block_id nonce left attempt : ℕ) (last : String) (l : Log)
        → let r =
            try_names os already_exists to_string process_id block_id nonce left attempt last l in
          Tried l r.0 r.1
    unfolding try_names alive mapped_at
    try_names-Tried block_id nonce zero attempt last l = record {
      open_handle = λ x. ground arith;
      no_view = λ x. refl;
      new = λ h e. absurd (cc);
    }
    try_names-Tried block_id nonce (suc left) attempt last l =
        elim (Option-cases (os.descriptor l)) [
          | inl e ↦
              rw (e, try_names)
                (record {
                  open_handle = λ x. ground arith;
                  no_view = λ x. refl;
                  new = λ h f. absurd (cc);
                })
          | inr (h, e) ↦ elim (Bool-cases (already_exists (opened h ∷ l))) [
            | inr fresh ↦
                rw (e, try_names, fresh)
                  (record {
                    open_handle = λ x. ground (arith, sound.new_descriptor l h e);
                    no_view = λ x. refl;
                    new = λ g f. ground (arith, f, sound.new_descriptor l h e);
                  })
            | inl existing ↦
                let rest =
                  try_names-Tried block_id nonce left (attempt + 1)
                    (mapping_name os already_exists to_string process_id block_id nonce attempt)
                    (closed h ∷ opened h ∷ l) in
                rw (e, try_names, existing)
                  (record {
                    open_handle =
                        λ x. ground (arith, rest.open_handle x, sound.new_descriptor l h e);
                    no_view = λ x. rest.no_view x;
                    new = λ g f. ground (arith, rest.new g f, sound.new_descriptor l h e);
                  })
          ]
        ]

    map_created-Accounts :
        (l k : Log) (size : ℕ) (c : Created) (handle : Option ℕ)
        → c.mapping_handle ≡ handle
        → Tried l c k
        → let r =
            map_created os already_exists to_string process_id size handle c.already_exists
              c.mapping_name k in
          Accounts destroy_platform_mapping l r.0 r.1
    unfolding map_created alive mapped_at
    map_created-Accounts l k size c none e t = record {
      descriptors = λ x. ground (arith, t.open_handle x, e);
      regions = λ x. ground (arith, t.no_view x);
      no_descriptor_left = λ x. ground (arith, t.open_handle x, e);
      no_region_left = λ x. ground (arith, t.no_view x);
    }
    map_created-Accounts l k size c (some h) e t =
        let (new, fresh) = t.new h e in
        rw (map_created, fresh)
          (map_view-Accounts l k h size c.mapping_name new
            (λ x. (t.open_handle x ∙ ap (λ o. alive l x + is x o) e, t.no_view x)))

    -- Whatever the system answers, and whichever names exist already, `create_platform_mapping`
    -- leaves open the handle and the view that it returns, and none where it throws; destroying the
    -- result leaves none.
    pub windows_create-Accounts :
        (size block_id nonce : ℕ) (l : Log)
        → let r =
            create_platform_mapping os already_exists to_string process_id size block_id nonce l in
          Accounts destroy_platform_mapping l r.0 r.1
    unfolding create_platform_mapping finish_create
    windows_create-Accounts size block_id nonce l =
        let (c, k) = try_names os already_exists to_string process_id block_id nonce 8 0 "" l in
        map_created-Accounts l k size c c.mapping_handle refl
          (try_names-Tried block_id nonce 8 0 "" l)
