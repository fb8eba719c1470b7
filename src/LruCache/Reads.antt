-- ===== src/LruCache/Reads.antt =====
-- What the shard returns: `Get` after `Put`, and what a cleanup leaves.
use Prim.Native.String.{String}
use text.Mathlib.Text.{◌==◌ as str_eq}
use text.Mathlib.TextEquality.{eq_iff}
use mathlib.Core.List.{append_assoc}
use gostream.Prelude.{
  ℕ, ◌+◌, ◌≤◌, ◌≡◌, refl, ap, sym, ◌∙◌, ◌==◌, ltb, if◌then◌else◌, false, Bool-cases, Option-cases,
  List, [], ◌∷◌, ◌++◌, Option, none, some, All, inl, inr, subst, arith, length,
}
use gostream.LruCache.{
  Element, SimpleLruCache, remove_id, element, remove_element, get, put, push_new, expired,
  remove_all, cleanup_expired,
}
use gostream.LruCache.Order.{find_key, Differs, Distinct, find_key-remove_id}
use gostream.LruCache.Valid.{IsValid, element-find_key, element_found, remove_element-IsValid}
use gostream.LruCache.Evict.{put-IsValid, make_room-Evicts}

module _ {ℓ} {V : Type ℓ} where
  -- The value that a list of entries holds for a key at a time.
  unfoldable pub live_value : List (Element V) → String → ℕ → Option V
  live_value l k now = elim (find_key k l) [
    | none ↦ none
    | some e ↦ if ltb e.expires_at now then none else some e.value
  ]

  -- `Get` returns the value of the entry with the key, unless it has expired. No other key's entry
  -- changes.
  get-live_value :
      (c : SimpleLruCache V) (k j : String) (now promoted : ℕ)
      → IsValid c
      → ((get c k now promoted).1 ≡ live_value c.order k now)
        × (str_eq j k ≡ false → find_key j (get c k now promoted).0.order ≡ find_key j c.order)
  unfolding get live_value remove_element find_key
  get-live_value c k j now promoted v = elim (Option-cases (element c k)) [
    | inl e ↦
        let q : find_key k c.order ≡ none = sym (element-find_key c k v) ∙ e in
        (ground arith, ground arith)
    | inr (x, e) ↦
        let q : find_key k c.order ≡ some x = sym (element-find_key c k v) ∙ e in
        let (found, same) = element_found c k v e in
        let gone = find_key-remove_id x.key j c.order v.distinct found in
        (ground arith, λ other. ground (arith, gone, eq_iff j x.key, eq_iff x.key j, eq_iff j k))
  ]

  front_found :
      (k : String) (e : Element V) (l : List (Element V)) → e.key ≡ k → find_key k (e ∷ l) ≡ some e
  unfolding find_key
  front_found k e l h = ground (arith, eq_iff e.key k)

  put-front :
      (c : SimpleLruCache V) (k : String) (value : V) (size now promoted : ℕ)
      → IsValid c
      → (e : Element V) × (find_key k (put c k value size now promoted).order ≡ some e)
        × (e.value ≡ value)
        × (e.expires_at ≡ now + c.ttl)
  unfolding put push_new find_key
  put-front c k value size now promoted v = elim (Option-cases (element c k)) [
    | inl e ↦
        let (dropped, ev) = make_room-Evicts (length c.order) c size (omega arith) v in
        rw (e, put) (_, front_found k _ _ refl, refl, ap (λ t. now + t) ev.same_ttl)
    | inr (x, e) ↦
        let (found, same) = element_found c k v e in
        rw (e, put) (_, front_found k _ _ same, refl, refl)
  ]

  -- What `Put` has stored is what `Get` returns, up to the moment at which the entry expires.
  pub get-put :
      (c : SimpleLruCache V) (k : String) (value : V) (size now promoted later again : ℕ)
      → IsValid c
      → later ≤ now + c.ttl
      → (get (put c k value size now promoted) k later again).1 ≡ some value
  unfolding live_value
  get-put c k value size now promoted later again v fresh =
      let (e, found, same_value, expiry) = put-front c k value size now promoted v in
      let w = put-IsValid c k value size now promoted v in
      (get-live_value (put c k value size now promoted) k k later again w).0 ∙ ground (arith, found)

  -- The entries that have not expired.
  unfoldable pub alive : ℕ → List (Element V) → List (Element V)
  alive now [] = []
  alive now (x ∷ xs) = if ltb x.expires_at now then alive now xs else x ∷ alive now xs

  remove_middle :
      (pre : List (Element V)) (x : Element V) (xs : List (Element V))
      → Distinct (pre ++ x ∷ xs)
      → (find_key x.key (pre ++ x ∷ xs) ≡ some x) × (remove_id x.id (pre ++ x ∷ xs) ≡ pre ++ xs)
  unfolding find_key remove_id
  remove_middle [] x xs d = (ground (arith, eq_iff x.key x.key), ground arith)
  remove_middle (p ∷ pre) x xs d =
      let (found, removed) = remove_middle pre x xs d.1 in
      let differs = All-middle (Differs p) pre x xs d.0 in
      let apart : (p.id == x.id) ≡ false = ground (arith, differs.0) in
      let other : str_eq p.key x.key ≡ false =
        ground (arith, differs.1, eq_iff p.key x.key, eq_iff x.key p.key) in
      (rw other found, rw apart (ap (◌∷◌ p) removed))
    where
      All-middle :
          (P : Element V → Type 0) (pre : List (Element V)) (x : Element V) (xs : List (Element V))
          → All P (pre ++ x ∷ xs)
          → P x
      All-middle P [] x xs h = h.0
      All-middle P (q ∷ pre) x xs h = All-middle P pre x xs h.1

  remove_all-alive :
      (c : SimpleLruCache V) (now : ℕ) (pre l : List (Element V))
      → IsValid c
      → c.order ≡ pre ++ l
      → IsValid (remove_all c (expired now l))
        × ((remove_all c (expired now l)).order ≡ pre ++ alive now l)
  unfolding remove_all expired alive remove_element
  remove_all-alive c now pre [] v e = (v, e)
  remove_all-alive c now pre (x ∷ xs) v e = elim (Bool-cases (ltb x.expires_at now)) [
    | inl old ↦
        let (found, removed) = remove_middle pre x xs (subst Distinct e v.distinct) in
        let found' : find_key x.key c.order ≡ some x = ap (find_key x.key) e ∙ found in
        let order' : remove_id x.id c.order ≡ pre ++ xs = ap (remove_id x.id) e ∙ removed in
        rw old (
          remove_all-alive (remove_element c x) now pre xs (remove_element-IsValid c x v found')
            order')
    | inr new ↦
        let e' : c.order ≡ (pre ++ x ∷ []) ++ xs = e ∙ sym (append_assoc pre (x ∷ []) xs) in
        let (w, order') = remove_all-alive c now (pre ++ x ∷ []) xs v e' in
        rw new (w, order' ∙ append_assoc pre (x ∷ []) (alive now xs))
  ]

  length-expired :
      (now : ℕ) (l : List (Element V)) → length (expired now l) + length (alive now l) ≡ length l
  unfolding expired alive
  length-expired now [] = omega arith
  length-expired now (x ∷ xs) = ground (arith, length-expired now xs)

  -- A cleanup keeps the invariant, keeps exactly the entries that have not expired, in their order,
  -- and reports how many it removed.
  pub cleanup_expired-alive :
      (c : SimpleLruCache V) (now : ℕ)
      → IsValid c
      → IsValid (cleanup_expired c now).0
        × ((cleanup_expired c now).0.order ≡ alive now c.order)
        × ((cleanup_expired c now).1 + length (alive now c.order) ≡ length c.order)
  unfolding cleanup_expired
  cleanup_expired-alive c now v =
      let (w, order') = remove_all-alive c now [] c.order v refl in
      (w, order', length-expired now c.order)
