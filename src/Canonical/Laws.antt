-- ===== src/Canonical/Laws.antt =====
-- When the canonical text of a package exists, and that its hash does not depend on the status.
use intent_packages.Prelude.{
  ℕ, suc, String, ◌≡◌, refl, inl, inr, Bool, true, false, not, ◌&&◌, List, [], ◌∷◌, ◌==◌,
  if◌then◌else◌, Bool-cases, All, &&-true,
}
use intent_packages.Key.{name, odd}
use intent_packages.Value.{
  Value, ℤ, null, bool, int, str, list, dict, float, date, bytes, other, Items, nil, cons, Entries,
  end, entry,
}
use intent_packages.Value.Dict.{put, remove-put}
use intent_packages.Outcome.{Outcome, ok, Returns, Returns-bind}
use intent_packages.Outcome.Report.{Where, field, nth, Issues, one, append-eq-nil}
use intent_packages.Schema.{scan, scan_items, scan_entries}
use intent_packages.Host.{Text, Host}
use intent_packages.Canonical.{
  key_le, insert_member, sort_members, member_texts, text_keys, keys_encode, is_writable, decimal,
  canon_int, canon, canon_items, canon_entries, jcs, package_hash,
}

good_entry :
    (p : Where) (b : Bool) (es : Issues)
    → (if b then es else one p "keys must be non-empty strings") ≡ []
    → es ≡ []
good_entry p true es h = h
good_entry p false es h = absurd (cc)

-- No key of a mapping in it holds a surrogate, and no integer in it has more than 4300 digits.
unfoldable mutual
  unfolding keys_encode is_writable

  pub is_encodable : Value → Bool
  is_encodable (int n) = is_writable n
  is_encodable (list xs) = items_encode xs
  is_encodable (dict d) = keys_encode d && values_encode d
  is_encodable _ = true

  items_encode : Items → Bool
  items_encode nil = true
  items_encode (cons v vs) = is_encodable v && items_encode vs

  values_encode : Entries → Bool
  values_encode end = true
  values_encode (entry k v d) = is_encodable v && values_encode d

abbrev Member : Type 0
Member = String × Outcome Text

abbrev AllReturn : List Member → Type 0
AllReturn ms = All (λ m. Returns m.1) ms

insert_member-AllReturn :
    (m : Member) (ms : List Member) → Returns m.1 → AllReturn ms → AllReturn (insert_member m ms)
unfolding insert_member
insert_member-AllReturn (k, t) [] r h = (r, tt)
insert_member-AllReturn (k, t) ((j, u) ∷ ms) r h = elim (Bool-cases (key_le k j)) [
  | inl e ↦ rw e (r, h)
  | inr e ↦ rw e (h.0, insert_member-AllReturn (k, t) ms r h.1)
]

sort_members-AllReturn : (ms : List Member) → AllReturn ms → AllReturn (sort_members ms)
unfolding sort_members
sort_members-AllReturn [] h = tt
sort_members-AllReturn (m ∷ ms) h =
    insert_member-AllReturn m (sort_members ms) h.0 (sort_members-AllReturn ms h.1)

member_texts-Returns : (ms : List Member) → AllReturn ms → Returns (member_texts ms)
unfolding member_texts
member_texts-Returns [] h = (_, refl)
member_texts-Returns ((k, m) ∷ ms) h =
    Returns-bind m _ h.0
      (λ t. Returns-bind (member_texts ms) _ (member_texts-Returns ms h.1) (λ ts. (_, refl)))

scan_entries-text_keys : (d : Entries) (p : Where) → scan_entries d p ≡ [] → text_keys d ≡ true
unfolding scan text_keys
scan_entries-text_keys end p h = refl
scan_entries-text_keys (entry (name k) v d) p h =
    scan_entries-text_keys d p ((append-eq-nil _ _).0 h).1
scan_entries-text_keys (entry (odd n) v d) p h = absurd (cc)

canon_dict-Returns :
    (d : Entries)
    → text_keys d ≡ true
    → keys_encode d ≡ true
    → AllReturn (canon_entries d)
    → Returns (canon (dict d))
unfolding canon
canon_dict-Returns d t k h =
    rw (t, k)
      (Returns-bind (member_texts (sort_members (canon_entries d))) _
        (member_texts-Returns _ (sort_members-AllReturn (canon_entries d) h)) (λ ts. (_, refl)))

canon_int-ok : (n : ℤ) → is_writable n ≡ true → canon_int n ≡ ok (decimal n)
unfolding canon_int
canon_int-ok n e = rw e

mutual
  unfolding scan canon is_encodable

  scan-canon_at :
      (v : Value) (p : Where) → scan v p ≡ [] → is_encodable v ≡ true → Returns (canon v)
  scan-canon_at null p h e = (_, refl)
  scan-canon_at (bool true) p h e = (_, refl)
  scan-canon_at (bool false) p h e = (_, refl)
  scan-canon_at (int n) p h e = (decimal n, canon_int-ok n e)
  scan-canon_at (str s) p h e = (_, refl)
  scan-canon_at (list xs) p h e =
      Returns-bind (canon_items xs) _ (scan_items-canon xs 0 p h e) (λ ts. (_, refl))
  scan-canon_at (dict d) p h e =
      let (keys_ok, values_ok) = &&-true (keys_encode d) _ e in
      canon_dict-Returns d (scan_entries-text_keys d p h) keys_ok
        (scan_entries-canon d p h values_ok)
  scan-canon_at (float n) p h e = absurd (cc)
  scan-canon_at (date n) p h e = absurd (cc)
  scan-canon_at (bytes n) p h e = absurd (cc)
  scan-canon_at (other g n) p h e = absurd (cc)

  scan_items-canon :
      (xs : Items) (i : ℕ) (p : Where)
      → scan_items xs i p ≡ []
      → items_encode xs ≡ true
      → Returns (canon_items xs)
  scan_items-canon nil i p h e = (_, refl)
  scan_items-canon (cons v vs) i p h e =
      let parts = (append-eq-nil _ _).0 h in
      let (a, b) = &&-true (is_encodable v) _ e in
      Returns-bind (canon v) _ (scan-canon_at v (nth p i) parts.0 a) (λ t.
        Returns-bind (canon_items vs) _ (scan_items-canon vs (suc i) p parts.1 b) (λ ts. (_, refl)))

  scan_entries-canon :
      (d : Entries) (p : Where)
      → scan_entries d p ≡ []
      → values_encode d ≡ true
      → AllReturn (canon_entries d)
  scan_entries-canon end p h e = tt
  scan_entries-canon (entry (name k) v d) p h e =
      let parts = (append-eq-nil _ _).0 h in
      let value_ok = good_entry p (not (k == "")) _ parts.0 in
      let (a, b) = &&-true (is_encodable v) _ e in
      (scan-canon_at v (field p (name k)) value_ok a, scan_entries-canon d p parts.1 b)
  scan_entries-canon (entry (odd n) v d) p h e = absurd (cc)

-- A document has a canonical text if the scan for forbidden values finds nothing in it, none of its
-- keys holds a surrogate and none of its integers has more than 4300 digits.
pub scan-canon : (v : Value) (p : Where) → scan v p ≡ [] → is_encodable v ≡ true → Returns (jcs v)
unfolding jcs
scan-canon v p h e = scan-canon_at v p h e

-- The hash of a package is the same whatever status is written.
pub package_hash-put_status :
    (H : Host) (v : Value) (pkg : Entries)
    → package_hash H (put "status" v pkg) ≡ package_hash H pkg
unfolding package_hash
package_hash-put_status H v pkg = rw remove-put
