-- ===== src/Storage/Write/Built.antt =====
-- What a write operation that was built does to the identifiers of the manifest.
use mautrix_signal.Common.{
  ℕ, ◌+◌, ◌<◌, ◌≡◌, ◌≢◌, ◌⊎◌, inl, inr, refl, sym, ap, subst, ◌∙◌, if_cases, Bool-cases, false,
  Option, none, some, Option-cases, List, [], ◌∷◌, ◌++◌, map, append_assoc, append-nil, length,
  length-append, All-append, list_eq, list_eq_refl, list_eq→eq, All, Any, arith,
}
use mathlib.Core.List.{map-append}
use mautrix_signal.Groups.Change.{contains_func}
use mautrix_signal.Storage.Records.{
  Bytes, StorageRecord, Identifier, Manifest, DecryptedRecord, Edit, Result, ok, err, panic, ◌>>=◌,
}
use mautrix_signal.Storage.Crypto.{Ciphers, decrypt_storage_item, decrypt_storage_manifest}
use mautrix_signal.Storage.Crypto.RoundTrip.{decrypt-encrypt_record, decrypt-encrypt_manifest}
use mautrix_signal.Storage.Write.{
  StorageItem, BuiltStorageWrite, Building, swap_identifier, swapped, build_edit, build_edits,
  no_edits_yet, new_manifest, finish_write, build_storage_write, storage_item_id_length,
}

abbrev pub All2 : {A B : Type 0} → (A → B → Type 0) → List A → List B → Type 0
All2 R [] [] = Unit {0}
All2 R [] (y ∷ ys) = ⊥
All2 R (x ∷ xs) [] = ⊥
All2 R (x ∷ xs) (y ∷ ys) = R x y × All2 R xs ys

All2-then :
    {A : Type 0} (R S T : A → A → Type 0) (xs ys zs : List A)
    → ((a b c : A) → R a b → S b c → T a c)
    → All2 R xs ys
    → All2 S ys zs
    → All2 T xs zs
All2-then R S T [] [] [] f h k = tt
All2-then R S T [] [] (z ∷ zs) f h k = k
All2-then R S T [] (y ∷ ys) zs f h k = absurd h
All2-then R S T (x ∷ xs) [] zs f h k = absurd h
All2-then R S T (x ∷ xs) (y ∷ ys) [] f h k = k
All2-then R S T (x ∷ xs) (y ∷ ys) (z ∷ zs) f (h, hs) (k, ks) =
    (f x y z h k, All2-then R S T xs ys zs f hs ks)

All2-refl : {A : Type 0} (R : A → A → Type 0) (xs : List A) → ((a : A) → R a a) → All2 R xs xs
All2-refl R [] f = tt
All2-refl R (x ∷ xs) f = (f x, All2-refl R xs f)

All2-append :
    {A B : Type 0} (R : A → B → Type 0) (xs : List A) (ys : List B) (x : A) (y : B)
    → All2 R xs ys
    → R x y
    → All2 R (xs ++ x ∷ []) (ys ++ y ∷ [])
All2-append R [] [] x y h r = (r, tt)
All2-append R [] (b ∷ ys) x y h r = absurd h
All2-append R (a ∷ xs) [] x y h r = absurd h
All2-append R (a ∷ xs) (b ∷ ys) x y (h, hs) r = (h, All2-append R xs ys x y hs r)

module _ {A : Type 0} (P : A → Type 0) where
  Any-append_left : (xs ys : List A) → Any P xs → Any P (xs ++ ys)
  Any-append_left [] ys h = absurd h
  Any-append_left (x ∷ xs) ys (inl h) = inl h
  Any-append_left (x ∷ xs) ys (inr h) = inr (Any-append_left xs ys h)

  Any-append_last : (xs : List A) (x : A) → P x → Any P (xs ++ x ∷ [])
  Any-append_last [] x h = inl h
  Any-append_last (y ∷ xs) x h = inr (Any-append_last xs x h)

-- One of the deleted IDs is that of `o`, and the item in the same place has the ID of `n`.
abbrev pub Moved : List Bytes → List StorageItem → Identifier → Identifier → Type 0
Moved [] items o n = ⊥
Moved (d ∷ ds) [] o n = ⊥
Moved (d ∷ ds) (i ∷ is) o n = ((o.raw ≡ d) × (n.raw ≡ i.key)) ⊎ Moved ds is o n

-- An identifier whose ID was not deleted is as it was, and one whose ID was deleted has the ID of the
-- item that was inserted for it; its type stays.
abbrev pub Kept : List Bytes → List StorageItem → Identifier → Identifier → Type 0
Kept deleted inserted o n =
    (o.typ ≡ n.typ)
    × (((o.raw ≡ n.raw) × All (λ d. o.raw ≢ d) deleted) ⊎ Moved deleted inserted o n)

-- The same for one ID and one item.
abbrev KeptBy : Bytes → StorageItem → Identifier → Identifier → Type 0
KeptBy old item o n =
    (o.typ ≡ n.typ) × (((o.raw ≡ n.raw) × (o.raw ≢ old)) ⊎ ((o.raw ≡ old) × (n.raw ≡ item.key)))

Moved-left :
    (ds : List Bytes) (is : List StorageItem) (d : Bytes) (i : StorageItem) (a b c : Identifier)
    → b.raw ≡ c.raw
    → Moved ds is a b
    → Moved (ds ++ d ∷ []) (is ++ i ∷ []) a c
Moved-left [] is d i a b c e h = absurd h
Moved-left (x ∷ ds) [] d i a b c e h = absurd h
Moved-left (x ∷ ds) (y ∷ is) d i a b c e (inl (p, q)) = inl (p, sym e ∙ q)
Moved-left (x ∷ ds) (y ∷ is) d i a b c e (inr h) = inr (Moved-left ds is d i a b c e h)

Moved-last :
    (ds : List Bytes) (is : List StorageItem) (d : Bytes) (i : StorageItem) (a c : Identifier)
    → length ds ≡ length is
    → a.raw ≡ d
    → c.raw ≡ i.key
    → Moved (ds ++ d ∷ []) (is ++ i ∷ []) a c
Moved-last [] [] d i a c l p q = inl (p, q)
Moved-last [] (y ∷ is) d i a c l p q = absurd (omega arith)
Moved-last (x ∷ ds) [] d i a c l p q = absurd (omega arith)
Moved-last (x ∷ ds) (y ∷ is) d i a c l p q = inr (Moved-last ds is d i a c (omega arith) p q)

-- An identifier that was moved has the ID of an item, so not one that no item has.
Moved-key :
    (ds : List Bytes) (is : List StorageItem) (a b : Identifier) (r : Bytes)
    → Moved ds is a b
    → All (λ (x : StorageItem). x.key ≢ r) is
    → b.raw ≢ r
Moved-key [] is a b r h k = absurd h
Moved-key (x ∷ ds) [] a b r h k = absurd h
Moved-key (x ∷ ds) (y ∷ is) a b r (inl (p, q)) (k, ks) = λ e. k (sym q ∙ e)
Moved-key (x ∷ ds) (y ∷ is) a b r (inr h) (k, ks) = Moved-key ds is a b r h ks

Kept-then :
    (deleted : List Bytes) (inserted : List StorageItem) (d : Bytes) (i : StorageItem)
    → length deleted ≡ length inserted
    → All (λ (x : StorageItem). x.key ≢ d) inserted
    → (a b c : Identifier) → Kept deleted inserted a b
    → KeptBy d i b c
    → Kept (deleted ++ d ∷ []) (inserted ++ i ∷ []) a c
Kept-then deleted inserted d i l f a b c (t, inl (e, n)) (u, inl (q, m)) =
    (t ∙ u, inl (e ∙ q, All-append (λ x. a.raw ≢ x) deleted (d ∷ []) n ((λ x. m (sym e ∙ x)), tt)))
Kept-then deleted inserted d i l f a b c (t, inl (e, n)) (u, inr (q, r)) =
    (t ∙ u, inr (Moved-last deleted inserted d i a c l (e ∙ q) r))
Kept-then deleted inserted d i l f a b c (t, inr h) (u, inl (q, m)) =
    (t ∙ u, inr (Moved-left deleted inserted d i a b c q h))
Kept-then deleted inserted d i l f a b c (t, inr h) (u, inr (q, r)) =
    absurd (Moved-key deleted inserted a b d h f q)

-- One identifier and no other one has the ID.
abbrev pub HasOnce : Bytes → List Identifier → Type 0
HasOnce raw [] = ⊥
HasOnce raw (i ∷ ids) =
    ((i.raw ≡ raw) × All (λ (j : Identifier). j.raw ≢ raw) ids) ⊎ ((i.raw ≢ raw) × HasOnce raw ids)

-- What swap_identifier finds, when the ID is there once.
abbrev Swapped : Bytes → StorageItem → List Identifier → Option (ℕ × List Identifier) → Type 0
Swapped old item ids none = ⊥
Swapped old item ids (some (typ, new)) =
    All2 (KeptBy old item) ids new
    × ((r : Bytes) → r ≢ old → item.key ≢ r → HasOnce r ids → HasOnce r new)

KeptBy-absent :
    (old : Bytes) (item : StorageItem) (r : Bytes) (xs ys : List Identifier)
    → item.key ≢ r
    → All (λ (j : Identifier). j.raw ≢ r) xs
    → All2 (KeptBy old item) xs ys
    → All (λ (j : Identifier). j.raw ≢ r) ys
KeptBy-absent old item r [] [] f a h = tt
KeptBy-absent old item r [] (y ∷ ys) f a h = absurd h
KeptBy-absent old item r (x ∷ xs) [] f a h = absurd h
KeptBy-absent old item r (x ∷ xs) (y ∷ ys) f (a, rest) ((t, inl (e, n)), h) =
    ((λ q. a (e ∙ q)), KeptBy-absent old item r xs ys f rest h)
KeptBy-absent old item r (x ∷ xs) (y ∷ ys) f (a, rest) ((t, inr (o, k)), h) =
    ((λ q. f (sym k ∙ q)), KeptBy-absent old item r xs ys f rest h)

KeptBy-same :
    (old : Bytes) (item : StorageItem) (ids : List Identifier)
    → All (λ (j : Identifier). j.raw ≢ old) ids
    → All2 (KeptBy old item) ids ids
KeptBy-same old item [] h = tt
KeptBy-same old item (i ∷ ids) (n, h) = ((refl, inl (refl, n)), KeptBy-same old item ids h)

swapped_later :
    (old : Bytes) (item : StorageItem) (i : Identifier) (ids : List Identifier)
    (o : Option (ℕ × List Identifier))
    → i.raw ≢ old
    → Swapped old item ids o
    → Swapped old item (i ∷ ids) (swapped item.key i o)
swapped_later old item i ids none n h = h
swapped_later old item i ids (some (typ, new)) n (h, k) = (
  ((refl, inl (refl, n)), h),
  λ r m f o. elim o [
    | inl (e, a) ↦ inl (e, KeptBy-absent old item r ids new f a h)
    | inr (e, a) ↦ inr (e, k r m f a)
  ],
)

swap_identifier-Swapped :
    (old : Bytes) (item : StorageItem) (ids : List Identifier)
    → HasOnce old ids
    → Swapped old item ids (swap_identifier old item.key ids)
unfolding swap_identifier
swap_identifier-Swapped old item [] h = h
swap_identifier-Swapped old item (i ∷ ids) (inl (e, a)) =
    rw (ap (λ r. list_eq r old) e ∙ list_eq_refl old) (
      ((refl, inr (e, refl)), KeptBy-same old item ids a),
      λ r m f o. elim o [ inl (q, b) ↦ absurd (m (sym q ∙ e)) | inr (q, b) ↦ inr (f, b) ],
    )
swap_identifier-Swapped old item (i ∷ ids) (inr (n, h)) =
    if_cases (Swapped old item (i ∷ ids)) (list_eq i.raw old)
      (λ q. absurd (n (list_eq→eq i.raw old q)))
      (λ q.
        swapped_later old item i ids (swap_identifier old item.key ids) n
          (swap_identifier-Swapped old item ids h))

-- An edit by the ID of the identifier that it replaces.
pub record Target : Type 0 where
  pub raw : Bytes
  pub content : StorageRecord

module _ (ciphers : Ciphers) (storage_key : Bytes) where
  open ciphers use {to_base64, of_base64, of_base64-to_base64, random, marshal_record}

  abbrev pub edit_of : Target → Edit
  edit_of t = record { old_id = to_base64 t.raw; content = t.content }

  abbrev pub Marshals : StorageRecord → Type 0
  Marshals r = (b : Bytes) × (marshal_record r ≡ some b) × (0 < length b)

  -- The IDs are different ones of the identifiers, each of which stands there once, and the records can
  -- be marshalled.
  abbrev pub Ready : List Target → List Identifier → List Bytes → Type 0
  Ready [] ids replaced = Unit {0}
  Ready (t ∷ ts) ids replaced =
      HasOnce t.raw ids
      × (contains_func (list_eq (to_base64 t.raw)) replaced ≡ false)
      × Marshals t.content
      × All (λ (u : Target). u.raw ≢ t.raw) ts
      × Ready ts ids replaced

  to_base64_injective : (a b : Bytes) → to_base64 a ≡ to_base64 b → a ≡ b
  to_base64_injective a b e =
      elim_some (sym (of_base64-to_base64 a) ∙ ap of_base64 e ∙ of_base64-to_base64 b)
    where
      or_empty : Option Bytes → Bytes
      or_empty none = []
      or_empty (some c) = c

      elim_some : some a ≡ some b → a ≡ b
      elim_some q = ap or_empty q

  Ready-next :
      (t : Target) (ts : List Target) (ids new : List Identifier) (replaced : List Bytes)
      → (key : Bytes) → ((r : Bytes) → r ≢ t.raw → key ≢ r → HasOnce r ids → HasOnce r new)
      → All (λ (u : Target). key ≢ u.raw) ts
      → All (λ (u : Target). u.raw ≢ t.raw) ts
      → Ready ts ids replaced
      → Ready ts new (to_base64 t.raw ∷ replaced)
  Ready-next t [] ids new replaced key f g n h = tt
  Ready-next t (u ∷ us) ids new replaced key f (g, gs) (n, ns) (raw, r, m, d, h) =
      (f u.raw n g raw, not_again, m, d, Ready-next t us ids new replaced key f gs ns h)
    where
      not_again : contains_func (list_eq (to_base64 u.raw)) (to_base64 t.raw ∷ replaced) ≡ false
      not_again = elim (Bool-cases (list_eq (to_base64 u.raw) (to_base64 t.raw))) [
        | inl q ↦ absurd (n (to_base64_injective u.raw t.raw (list_eq→eq _ _ q)))
        | inr q ↦ rw q r
      ]

  -- An item that was inserted holds the record that was made of it, under its ID.
  abbrev pub ItemOf : Bytes → StorageItem → DecryptedRecord → Type 0
  ItemOf ikm i r =
      (r.storage_id ≡ to_base64 i.key)
      × (decrypt_storage_item ciphers storage_key ikm i.key i.value ≡ some r.content)

  -- The IDs of the items are drawn by random.Bytes.
  abbrev pub Drawn : List StorageItem → Type 0
  Drawn items = All (λ (i : StorageItem). (n : ℕ) × (i.key ≡ random n storage_item_id_length)) items

  -- No ID that random.Bytes draws is one of the edited IDs.
  abbrev pub Fresh : List Target → Type 0
  Fresh ts = (n : ℕ) → All (λ (t : Target). random n storage_item_id_length ≢ t.raw) ts

  -- The loop so far, for the identifiers that the manifest had.
  record Progress (ikm : Bytes) (olds : List Identifier) (b : Building) : Type 0 where
    kept : All2 (Kept b.delete_key b.insert_item) olds b.identifiers
    items : All2 (ItemOf ikm) b.insert_item b.new_records
    drawn : Drawn b.insert_item
    paired : length b.delete_key ≡ length b.insert_item

  -- What a round or several rounds did for their targets.
  abbrev Built : Bytes → List Identifier → List Target → Building → Result Building → Type 0
  Built ikm olds ts b (ok c) =
      Progress ikm olds c
      × (c.delete_key ≡ b.delete_key ++ map (λ (t : Target). t.raw) ts)
      × (map (λ (r : DecryptedRecord). r.content) c.new_records
          ≡ map (λ (r : DecryptedRecord). r.content) b.new_records
            ++ map (λ (t : Target). t.content) ts)
  Built ikm olds ts b (err e) = ⊥
  Built ikm olds ts b panic = ⊥

  abbrev BuiltOne :
      Bytes → List Identifier → Target → List Target → Building → Result Building → Type 0
  BuiltOne ikm olds t ts b (ok c) =
      Built ikm olds (t ∷ []) b (ok c) × Ready ts c.identifiers c.replaced
  BuiltOne ikm olds t ts b (err e) = ⊥
  BuiltOne ikm olds t ts b panic = ⊥

  Drawn-Fresh :
      (t : Target) (ts : List Target) (items : List StorageItem)
      → Fresh (t ∷ ts)
      → Drawn items
      → All (λ (x : StorageItem). x.key ≢ t.raw) items
  Drawn-Fresh t ts [] fresh h = tt
  Drawn-Fresh t ts (x ∷ xs) fresh ((n, e), h) =
      ((λ q. (fresh n).0 (sym e ∙ q)), Drawn-Fresh t ts xs fresh h)

  one_more :
      {A B : Type 0} (xs : List A) (ys : List B) (x : A) (y : B)
      → length xs ≡ length ys
      → length (xs ++ x ∷ []) ≡ length (ys ++ y ∷ [])
  one_more xs ys x y e = omega (arith, length-append xs (x ∷ []), length-append ys (y ∷ []))

  build_edit-BuiltOne :
      (ikm : Bytes) (olds : List Identifier) (t : Target) (ts : List Target) (b : Building)
      → Progress ikm olds b
      → Fresh (t ∷ ts)
      → Ready (t ∷ ts) b.identifiers b.replaced
      → BuiltOne ikm olds t ts b (build_edit ciphers storage_key ikm (edit_of t) b)
  unfolding build_edit
  build_edit-BuiltOne ikm olds t ts b p fresh (raw, r, (m, e, n), d, h) =
      let new_id = random b.calls storage_item_id_length in
      let (value, v, dv) =
        decrypt-encrypt_record ciphers (b.calls + 1) storage_key ikm new_id t.content m e n in
      let item : StorageItem = record { key = new_id; value = value } in
      let found = swap_identifier-Swapped t.raw item b.identifiers raw in
      elim (Option-cases (swap_identifier t.raw new_id b.identifiers)) [
        | inl q ↦ absurd (subst (Swapped t.raw item b.identifiers) q found)
        | inr ((typ, new), q) ↦
            let (swaps, others) = subst (Swapped t.raw item b.identifiers) q found in
            rw (build_edit, r, of_base64-to_base64 t.raw, q, v)
              (
                (
                  record {
                    kept =
                        All2-then (Kept b.delete_key b.insert_item) (KeptBy t.raw item) _ olds
                          b.identifiers new
                          (Kept-then b.delete_key b.insert_item t.raw item p.paired
                            (Drawn-Fresh t ts b.insert_item fresh p.drawn))
                          p.kept swaps;
                    items =
                        All2-append (ItemOf ikm) b.insert_item b.new_records item _ p.items
                          (refl, dv);
                    drawn = All-append _ b.insert_item (item ∷ []) p.drawn ((b.calls, refl), tt);
                    paired = one_more b.delete_key b.insert_item t.raw item p.paired;
                  },
                  refl,
                  map-append _ b.new_records _,
                ),
                Ready-next t ts b.identifiers new b.replaced new_id others (fresh b.calls).1 d h,
              )
      ]

  build_edits-Built :
      (ikm : Bytes) (olds : List Identifier) (ts : List Target) (b : Building)
      → Progress ikm olds b
      → Fresh ts
      → Ready ts b.identifiers b.replaced
      → Built ikm olds ts b (build_edits ciphers storage_key ikm (map edit_of ts) b)
  unfolding build_edits
  build_edits-Built ikm olds [] b p fresh h = (p, sym (append-nil b.delete_key), sym (append-nil _))
  build_edits-Built ikm olds (t ∷ ts) b p fresh h =
      go (λ c q r. build_edits-Built ikm olds ts c q (λ n. (fresh n).1) r)
        (build_edit ciphers storage_key ikm (edit_of t) b)
        (build_edit-BuiltOne ikm olds t ts b p fresh h)
    where
      finish :
          (c : Building)
          → (c.delete_key ≡ b.delete_key ++ t.raw ∷ [])
          → (map (λ (r : DecryptedRecord). r.content) c.new_records
              ≡ map (λ (r : DecryptedRecord). r.content) b.new_records ++ t.content ∷ [])
          → (o : Result Building) → Built ikm olds ts c o
          → Built ikm olds (t ∷ ts) b o
      finish c d n (ok last) (q, dl, nl) = (
        q,
        dl
            ∙ ap (λ l. l ++ map (λ (u : Target). u.raw) ts) d
            ∙ append_assoc b.delete_key (t.raw ∷ []) (map (λ (u : Target). u.raw) ts),
        nl
            ∙ ap (λ l. l ++ map (λ (u : Target). u.content) ts) n
            ∙ append_assoc (map (λ (r : DecryptedRecord). r.content) b.new_records) (t.content ∷ [])
                (map (λ (u : Target). u.content) ts),
      )
      finish c d n (err x) q = q
      finish c d n panic q = q

      go :
          ((c : Building)
            → Progress ikm olds c
            → Ready ts c.identifiers c.replaced
            → Built ikm olds ts c (build_edits ciphers storage_key ikm (map edit_of ts) c))
          → (o : Result Building) → BuiltOne ikm olds t ts b o
          → Built ikm olds
              (t ∷ ts)
              b
              (o >>= λ next. build_edits ciphers storage_key ikm (map edit_of ts) next)
      go rec (ok c) ((q, d, n), ready) =
          finish c d n (build_edits ciphers storage_key ikm (map edit_of ts) c) (rec c q ready)
      go rec (err x) q = absurd q
      go rec panic q = absurd q

  -- The write was built.
  abbrev pub WriteOf : Manifest → ℕ → List Target → Result BuiltStorageWrite → Type 0
  WriteOf manifest source_device ts (ok built) =
      ((ids : List Identifier) × (decrypt_storage_manifest ciphers storage_key built.op.manifest
          ≡ some (new_manifest manifest source_device ids))
        × All2 (Kept built.op.delete_key built.op.insert_item) manifest.identifiers ids)
      × (built.op.delete_key ≡ map (λ (t : Target). t.raw) ts)
      × (map (λ (r : DecryptedRecord). r.content) built.new_records
          ≡ map (λ (t : Target). t.content) ts)
      × All2 (ItemOf manifest.record_ikm) built.op.insert_item built.new_records
      × Drawn built.op.insert_item
  WriteOf manifest source_device ts (err e) = ⊥
  WriteOf manifest source_device ts panic = ⊥

  finish_write-WriteOf :
      (manifest : Manifest) (source_device calls : ℕ) (ts : List Target) (b : Building)
      → ((ids : List Identifier)
          → (bytes : Bytes) × (ciphers.marshal_manifest (new_manifest manifest source_device ids)
              ≡ some bytes)
            × (0 < length bytes))
      → Built manifest.record_ikm manifest.identifiers ts (no_edits_yet manifest calls) (ok b)
      → WriteOf manifest source_device ts
          (finish_write ciphers storage_key manifest source_device b)
  unfolding finish_write
  finish_write-WriteOf manifest source_device calls ts b m (p, d, n) =
      let (bytes, e, l) = m b.identifiers in
      let (value, v, dv) =
        decrypt-encrypt_manifest ciphers b.calls storage_key
          (new_manifest manifest source_device b.identifiers) bytes e l in
      rw v ((b.identifiers, dv, p.kept), d, n, p.items, p.drawn)

  -- Editing different records of the manifest, whose IDs stand there once and are not drawn by
  -- random.Bytes, builds a write, if the records can be marshalled as can every manifest that follows.
  -- Its manifest is the next version, in which the identifiers of other records are as they were and
  -- each identifier that was edited has the ID, drawn by random.Bytes, of the item in the place of its
  -- edit. The write deletes the old IDs, and each item that it inserts is decrypted to the edited record.
  pub build_storage_write-WriteOf :
      (calls : ℕ) (manifest : Manifest) (source_device : ℕ) (t : Target) (ts : List Target)
      → ((ids : List Identifier)
          → (bytes : Bytes) × (ciphers.marshal_manifest (new_manifest manifest source_device ids)
              ≡ some bytes)
            × (0 < length bytes))
      → Fresh (t ∷ ts)
      → Ready (t ∷ ts) manifest.identifiers []
      → WriteOf manifest source_device (t ∷ ts) (
          build_storage_write ciphers calls storage_key manifest source_device
            (map edit_of (t ∷ ts)))
  unfolding build_storage_write
  build_storage_write-WriteOf calls manifest source_device t ts m fresh h =
      go
        (build_edits ciphers storage_key manifest.record_ikm (map edit_of (t ∷ ts))
          (no_edits_yet manifest calls))
        (build_edits-Built manifest.record_ikm manifest.identifiers (t ∷ ts)
          (no_edits_yet manifest calls)
          (record {
            kept = All2-refl (Kept [] []) manifest.identifiers (λ i. (refl, inl (refl, tt)));
            items = tt;
            drawn = tt;
            paired = refl;
          })
          fresh h)
    where
      go :
          (o : Result Building)
          → Built manifest.record_ikm manifest.identifiers (t ∷ ts) (no_edits_yet manifest calls) o
          → WriteOf manifest source_device
              (t ∷ ts)
              (o >>= finish_write ciphers storage_key manifest source_device)
      go (ok b) h2 = finish_write-WriteOf manifest source_device calls (t ∷ ts) b m h2
      go (err x) h2 = absurd h2
      go panic h2 = absurd h2
