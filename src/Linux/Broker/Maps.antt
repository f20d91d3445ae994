-- ===== src/Linux/Broker/Maps.antt =====
-- Maps of numbers to descriptors: what an insertion and a removal do to their keys and their sums.
use memfd_buffer_backend.Prelude.{
  ℕ, ◌+◌, ◌≡◌, ◌≢◌, ◌≤◌, refl, ap, List, [], ◌∷◌, ◌++◌, none, some, arith, total,
}
use memfd_buffer_backend.Linux.Broker.{find, erase, insert, RegisteredBlock}
use memfd_buffer_backend.Os.Accounts.{is}

-- The descriptors of an entry: its socket and the one that it serves.
abbrev pub pair_of : ℕ → ℕ × ℕ → ℕ
pair_of x (s, d) = is x (some s) + is x (some d)

abbrev pub keys : List (ℕ × ℕ) → List ℕ
keys [] = []
keys ((s, d) ∷ m) = s ∷ keys m

abbrev pub servers : List (ℕ × RegisteredBlock) → List ℕ
servers [] = []
servers ((id, r) ∷ rs) = r.server_socket ∷ servers rs

pub find-absent : (m : List (ℕ × ℕ)) (s : ℕ) → total (pair_of s) m ≡ 0 → find m s ≡ none
unfolding find total
find-absent [] s e = refl
find-absent ((j, d) ∷ m) s e = ground (arith, e, find-absent m s)

pub total-insert :
    (w : ℕ × ℕ → ℕ) (m : List (ℕ × ℕ)) (s d : ℕ)
    → find m s ≡ none
    → total w (insert m s d) ≡ total w m + w (s, d)
unfolding find insert total
total-insert w [] s d e = omega arith
total-insert w ((j, c) ∷ m) s d e = ground (arith, e, total-insert w m s d)

pub keys-insert :
    (m : List (ℕ × ℕ)) (s d : ℕ) → find m s ≡ none → keys (insert m s d) ≡ keys m ++ s ∷ []
unfolding find insert
keys-insert [] s d e = refl
keys-insert ((j, c) ∷ m) s d e = ground (arith, e, keys-insert m s d)

pub erase-insert : (m : List (ℕ × ℕ)) (s d : ℕ) → find m s ≡ none → erase (insert m s d) s ≡ m
unfolding find insert erase
erase-insert [] s d e = ground arith
erase-insert ((j, c) ∷ m) s d e = ground (arith, e, erase-insert m s d)

pub find-insert_self : (m : List (ℕ × ℕ)) (s d : ℕ) → find (insert m s d) s ≡ some d
unfolding find insert
find-insert_self [] s d = ground arith
find-insert_self ((j, c) ∷ m) s d = ground (arith, find-insert_self m s d)

pub servers-append :
    (rs : List (ℕ × RegisteredBlock)) (id : ℕ) (r : RegisteredBlock)
    → servers (rs ++ (id, r) ∷ []) ≡ servers rs ++ r.server_socket ∷ []
servers-append [] id r = refl
servers-append ((j, q) ∷ rs) id r = ap (◌∷◌ q.server_socket) (servers-append rs id r)

pub total-erase :
    (w : ℕ × ℕ → ℕ) (m : List (ℕ × ℕ)) (s d : ℕ)
    → find m s ≡ some d
    → total w m ≡ total w (erase m s) + w (s, d)
unfolding find erase total
total-erase w [] s d e = absurd (cc)
total-erase w ((j, c) ∷ m) s d e = ground (arith, e, total-erase w m s d)

pub find-insert_other : (m : List (ℕ × ℕ)) (s d k : ℕ) → s ≢ k → find (insert m s d) k ≡ find m k
unfolding find insert
find-insert_other [] s d k other = ground (arith, other)
find-insert_other ((j, c) ∷ m) s d k other = ground (arith, other, find-insert_other m s d k other)

pub find-erase_other : (m : List (ℕ × ℕ)) (s k : ℕ) → s ≢ k → find (erase m s) k ≡ find m k
unfolding find erase
find-erase_other [] s k other = refl
find-erase_other ((j, c) ∷ m) s k other = ground (arith, other, find-erase_other m s k other)

pub find-total : (m : List (ℕ × ℕ)) (s d : ℕ) → find m s ≡ some d → 1 ≤ total (pair_of s) m
unfolding find total
find-total [] s d e = absurd (cc)
find-total ((j, c) ∷ m) s d e = ground (arith, e, find-total m s d)

-- The descriptor that is found is one that the map holds.
pub find-held : (m : List (ℕ × ℕ)) (s d : ℕ) → find m s ≡ some d → 1 ≤ total (pair_of d) m
unfolding find total
find-held [] s d e = absurd (cc)
find-held ((j, c) ∷ m) s d e = ground (arith, e, find-held m s d)
