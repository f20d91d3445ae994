-- ===== src/Pool/Claims.antt =====
-- What a search for a reusable block does to the pool, and what it says of the block it finds.
use memfd_buffer_backend.Prelude.{
  ℕ, ◌+◌, ◌≤◌, ◌≡◌, ◌≢◌, refl, sym, ap, subst, ◌∙◌, ◌⊎◌, inl, inr, true, false, List, [], ◌∷◌,
  Option, none, some, arith, get_elem?, Bool-cases, Option-cases,
}
use memfd_buffer_backend.Header.{ControlHeader, grace_period_us}
use memfd_buffer_backend.Pool.{
  Block, Host, Pool, try_claim_block, claim_first, one_later, claim_control, claim_after_grace,
}

-- Only the headers and the readings of the clock may differ.
pub record SameBlocks (p q : Pool) : Type 0 where
  pub same_blocks : q.all_blocks ≡ p.all_blocks
  pub same_free : q.free_blocks ≡ p.free_blocks
  pub same_next : q.next_block_id ≡ p.next_block_id
  pub same_drawn : q.drawn ≡ p.drawn
  pub same_created : q.created ≡ p.created

-- The parts of a header that are written once.
pub record SameLayout (h k : ControlHeader) : Type 0 where
  pub same_magic : k.magic ≡ h.magic
  pub same_abi : k.abi_version ≡ h.abi_version
  pub same_size : k.payload_size ≡ h.payload_size

-- Never published, or published a grace period before some reading of the clock.
abbrev pub Rested : Host → ControlHeader → Type 0
Rested host h =
    (h.publish_timestamp_us ≡ 0)
    ⊎ ((k : ℕ) × (h.publish_timestamp_us + grace_period_us ≤ host.time k))

-- Block `i` may be reused: nobody reads it, and its grace period is over.
pub record IsReusable (host : Host) (p : Pool) (i : ℕ) : Type 0 where
  pub block : Block
  pub address : ℕ
  pub at : get_elem? p.all_blocks i ≡ some block
  pub controlled : block.control ≡ some address
  pub unread : (p.headers address).reader_state ≡ 0
  pub rested : Rested host (p.headers address)

pub SameLayout-trans : {h k l : ControlHeader} → SameLayout h k → SameLayout k l → SameLayout h l
SameLayout-trans a b = record {
  same_magic = b.same_magic ∙ a.same_magic;
  same_abi = b.same_abi ∙ a.same_abi;
  same_size = b.same_size ∙ a.same_size;
}

one_later-pool : (x : Option (ℕ × ℕ) × Pool) → (one_later x).1 ≡ x.1
one_later-pool (none, p) = refl
one_later-pool (some (i, b), p) = refl

module _ (host : Host) where
  pub try_claim_block-SameBlocks : (p : Pool) (i : ℕ) → SameBlocks p (try_claim_block host p i).1
  unfolding try_claim_block
  try_claim_block-SameBlocks p i = ground arith

  try_claim_block-layout :
      (p : Pool) (i a : ℕ) → SameLayout (p.headers a) ((try_claim_block host p i).1.headers a)
  unfolding try_claim_block
  try_claim_block-layout p i a = ground arith

  pub try_claim_block-fails :
      (p : Pool) (i a : ℕ)
      → (try_claim_block host p i).0 ≡ false
      → (try_claim_block host p i).1.headers a ≡ p.headers a
  unfolding try_claim_block
  try_claim_block-fails p i a e = ground arith

  claim_after_grace-true :
      (p : Pool) (a : ℕ)
      → (claim_after_grace host p a).0 ≡ true
      → ((p.headers a).reader_state ≡ 0)
        × (((p.headers a).publish_timestamp_us ≡ 0)
            ⊎ ((p.headers a).publish_timestamp_us + grace_period_us ≤ host.time p.read))
  unfolding claim_after_grace
  claim_after_grace-true p a e = ground arith

  claim_after_grace-others :
      (p : Pool) (a x : ℕ) → x ≢ a → (claim_after_grace host p a).1.headers x ≡ p.headers x
  unfolding claim_after_grace
  claim_after_grace-others p a x e = ground arith

  -- A block that was claimed was reusable, and no other header has changed.
  pub record Took (p : Pool) (i : ℕ) (q : Pool) : Type 0 where
    pub reusable : IsReusable host p i
    pub others : (x : ℕ) → x ≢ reusable.address → q.headers x ≡ p.headers x

  control-Took :
      (p : Pool) (i : ℕ) (b : Block) (c : Option ℕ)
      → get_elem? p.all_blocks i ≡ some b
      → b.control ≡ c
      → (claim_control host p c).0 ≡ true
      → Took p i (claim_control host p c).1
  unfolding claim_control
  control-Took p i b none at e claimed = cc
  control-Took p i b (some a) at e claimed =
      let (unread, rested) = claim_after_grace-true p a claimed in
      record {
        reusable = record {
          block = b;
          address = a;
          at = at;
          controlled = e;
          unread = unread;
          rested = elim rested [ inl z ↦ inl z | inr le ↦ inr (p.read, le) ];
        };
        others = claim_after_grace-others p a;
      }

  try_claim_block-Took :
      (p : Pool) (i : ℕ)
      → (try_claim_block host p i).0 ≡ true
      → Took p i (try_claim_block host p i).1
  unfolding try_claim_block
  try_claim_block-Took p i claimed = elim (Option-cases (get_elem? p.all_blocks i)) [
    | inl e ↦ ground (arith, claimed)
    | inr (b, e) ↦
        rw (e, try_claim_block)
          (control-Took p i b b.control e refl (rw (e, try_claim_block) at claimed))
  ]

  SameBlocks-trans : {p q r : Pool} → SameBlocks p q → SameBlocks q r → SameBlocks p r
  SameBlocks-trans a b = record {
    same_blocks = b.same_blocks ∙ a.same_blocks;
    same_free = b.same_free ∙ a.same_free;
    same_next = b.same_next ∙ a.same_next;
    same_drawn = b.same_drawn ∙ a.same_drawn;
    same_created = b.same_created ∙ a.same_created;
  }

  -- A block that can be reused after a claim that failed could be reused before it.
  Took-back :
      (p : Pool) (i j : ℕ) (q : Pool)
      → (try_claim_block host p j).0 ≡ false
      → Took (try_claim_block host p j).1 i q
      → Took p i q
  Took-back p i j q failed t =
      let r = t.reusable in
      let back = try_claim_block-fails p j r.address failed in
      record {
        reusable = record {
          block = r.block;
          address = r.address;
          at = ap (λ bs. get_elem? bs i) (sym (try_claim_block-SameBlocks p j).same_blocks) ∙ r.at;
          controlled = r.controlled;
          unread = ap (λ (h : ControlHeader). h.reader_state) (sym back) ∙ r.unread;
          rested = subst (Rested host) back r.rested;
        };
        others = λ x e. t.others x e ∙ try_claim_block-fails p j x failed;
      }

  pub claim_first-SameBlocks : (p : Pool) (bs : List ℕ) → SameBlocks p (claim_first host p bs).1
  unfolding claim_first
  claim_first-SameBlocks p [] = record {
    same_blocks = refl;
    same_free = refl;
    same_next = refl;
    same_drawn = refl;
    same_created = refl;
  }
  claim_first-SameBlocks p (b ∷ bs) =
      let (claimed, p') = try_claim_block host p b in
      ground (
        arith,
        try_claim_block-SameBlocks p b,
        claim_first-SameBlocks p' bs,
        one_later-pool (claim_first host p' bs),
      )

  pub claim_first-layout :
      (p : Pool) (bs : List ℕ) (a : ℕ)
      → SameLayout (p.headers a) ((claim_first host p bs).1.headers a)
  unfolding claim_first
  claim_first-layout p [] a = record { same_magic = refl; same_abi = refl; same_size = refl }
  claim_first-layout p (b ∷ bs) a =
      let (claimed, p') = try_claim_block host p b in
      ground (
        arith,
        try_claim_block-layout p b a,
        claim_first-layout p' bs a,
        one_later-pool (claim_first host p' bs),
      )

  -- What a search finds is at its position among the candidates, and was reusable.
  abbrev pub FoundIn : Pool → List ℕ → Option (ℕ × ℕ) × Pool → Type 0
  FoundIn p bs (none, q) = (x : ℕ) → q.headers x ≡ p.headers x
  FoundIn p bs (some (k, b), q) = (get_elem? bs k ≡ some b) × Took p b q

  one_later-FoundIn :
      (p : Pool) (c : ℕ) (bs : List ℕ) (x : Option (ℕ × ℕ) × Pool)
      → (try_claim_block host p c).0 ≡ false
      → FoundIn (try_claim_block host p c).1 bs x
      → FoundIn p (c ∷ bs) (one_later x)
  one_later-FoundIn p c bs (none, q) miss f = λ x. f x ∙ try_claim_block-fails p c x miss
  one_later-FoundIn p c bs (some (k, b), q) miss f = (f.0, Took-back p b c q miss f.1)

  pub claim_first-FoundIn : (p : Pool) (bs : List ℕ) → FoundIn p bs (claim_first host p bs)
  unfolding claim_first
  claim_first-FoundIn p [] = λ x. refl
  claim_first-FoundIn p (c ∷ bs) = elim (Bool-cases (try_claim_block host p c).0) [
    | inl hit ↦ rw hit (refl, try_claim_block-Took p c hit)
    | inr miss ↦
        rw miss
          (one_later-FoundIn p c bs _ miss (claim_first-FoundIn (try_claim_block host p c).1 bs))
  ]
