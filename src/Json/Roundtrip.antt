-- ===== src/Json/Roundtrip.antt =====
-- What the server sends is what is sent back to it (toCamel and toSnake of api/).
use bv_orchestrator.Json.{Json, null, bool, num, str, arr, obj, Elems, nil, cons, Props, end, prop}
use bv_orchestrator.Json.Case.{
  camel_key, snake_key, set_prop, assign, convert, convert_elems, convert_props, to_camel, to_snake,
}
use bv_orchestrator.Json.Keys.{has_no_upper, snake_key-camel_key}
use bv_orchestrator.Common.{
  ◌==◌, nat_eq, string_eq, Bool-cases, String, ◌≡◌, refl, sym, ap, ◌∙◌, inl, inr, Bool, true, false,
  not, ◌&&◌, ◌||◌, eq_iff, arith,
}

abbrev pub has_key : String → Props → Bool
has_key k end = false
has_key k (prop j v ps) = j == k || has_key k ps

abbrev pub distinct_keys : Props → Bool
distinct_keys end = true
distinct_keys (prop k v ps) = not (has_key k ps) && distinct_keys ps

abbrev pub no_upper_keys : Props → Bool
no_upper_keys end = true
no_upper_keys (prop k v ps) = has_no_upper k && no_upper_keys ps

-- A value as the server sends it: the keys of each of its objects have no capital letter, and no
-- object has a key twice.
unfoldable mutual
  pub IsSent : Json → Type 0
  IsSent (arr vs) = AreSent vs
  IsSent (obj ps) = (distinct_keys ps ≡ true) × (no_upper_keys ps ≡ true) × HoldSent ps
  IsSent _ = Unit

  pub AreSent : Elems → Type 0
  AreSent nil = Unit
  AreSent (cons v vs) = IsSent v × AreSent vs

  pub HoldSent : Props → Type 0
  HoldSent end = Unit
  HoldSent (prop k v ps) = IsSent v × HoldSent ps

abbrev joined : Props → Props → Props
joined end qs = qs
joined (prop k v ps) qs = prop k v (joined ps qs)

abbrev apart : Props → Props → Bool
apart o end = true
apart o (prop k v ps) = not (has_key k o) && apart o ps

set_prop_new :
    (k : String) (v : Json) (o : Props)
    → has_key k o ≡ false
    → set_prop k v o ≡ joined o (prop k v end)
unfolding set_prop
set_prop_new k v end h = refl
set_prop_new k v (prop j w ps) h = let rest = set_prop_new k v ps (ground arith) in ground arith

has_key-joined :
    (j k : String) (v : Json) (o : Props)
    → has_key j (joined o (prop k v end)) ≡ (has_key j o || k == j)
has_key-joined j k v end = ground arith
has_key-joined j k v (prop i w ps) = let rest = has_key-joined j k v ps in ground arith

apart-joined :
    (k : String) (v : Json) (o ps : Props)
    → apart o ps ≡ true
    → has_key k ps ≡ false
    → apart (joined o (prop k v end)) ps ≡ true
apart-joined k v o end h n = refl
apart-joined k v o (prop j w ps) h n =
    let rest = apart-joined k v o ps (ground arith) (ground arith) in
    let here = has_key-joined j k v o in ground (arith, eq_iff k j, eq_iff j k)

joined_assoc :
    (o : Props) (k : String) (v : Json) (ps : Props)
    → joined (joined o (prop k v end)) ps ≡ joined o (prop k v ps)
joined_assoc end k v ps = refl
joined_assoc (prop j w o) k v ps = ap (prop j w) (joined_assoc o k v ps)

joined_end : (o : Props) → joined o end ≡ o
joined_end end = refl
joined_end (prop k v o) = ap (prop k v) (joined_end o)

assign_lem :
    (o ps : Props) → distinct_keys ps ≡ true → apart o ps ≡ true → assign o ps ≡ joined o ps
unfolding assign
assign_lem o end d a = sym (joined_end o)
assign_lem o (prop k v ps) d a =
    ap (λ q. assign q ps) (set_prop_new k v o (ground arith))
    ∙ assign_lem (joined o (prop k v end)) ps (ground arith)
        (apart-joined k v o ps (ground arith) (ground arith))
    ∙ joined_assoc o k v ps

apart_end : (ps : Props) → apart end ps ≡ true
apart_end end = refl
apart_end (prop k v ps) = apart_end ps

-- The entries of an object with distinct keys make that object.
assign_distinct : (ps : Props) → distinct_keys ps ≡ true → assign end ps ≡ ps
assign_distinct ps d = assign_lem end ps d (apart_end ps)

-- Two keys without capital letters are renamed alike only if they are one.
camel_apart :
    (j k : String)
    → has_no_upper j ≡ true
    → has_no_upper k ≡ true
    → (j == k) ≡ false
    → (camel_key j == camel_key k) ≡ false
camel_apart j k a b n = elim (Bool-cases (camel_key j == camel_key k)) [
  | inl y ↦
      (let same : camel_key j ≡ camel_key k = (eq_iff (camel_key j) (camel_key k)).0 y in
        let back : j ≡ k =
          sym (snake_key-camel_key j a) ∙ ap snake_key same ∙ snake_key-camel_key k b in
        let yes : (j == k) ≡ true = (eq_iff j k).1 back in absurd cc)
  | inr m ↦ m
]

has_key-camel :
    (k : String) (ps : Props)
    → has_no_upper k ≡ true
    → no_upper_keys ps ≡ true
    → has_key k ps ≡ false
    → has_key (camel_key k) (convert_props camel_key ps) ≡ false
unfolding convert
has_key-camel k end a b n = refl
has_key-camel k (prop j v ps) a b n =
    let here : (camel_key j == camel_key k) ≡ false =
      camel_apart j k (ground arith) a (ground arith) in
    let rest = has_key-camel k ps a (ground arith) (ground arith) in ground arith

distinct-camel :
    (ps : Props)
    → distinct_keys ps ≡ true
    → no_upper_keys ps ≡ true
    → distinct_keys (convert_props camel_key ps) ≡ true
unfolding convert
distinct-camel end d n = refl
distinct-camel (prop k v ps) d n =
    let here = has_key-camel k ps (ground arith) (ground arith) (ground arith) in
    let rest = distinct-camel ps (ground arith) (ground arith) in ground arith

mutual
  unfolding convert IsSent

  back : (v : Json) → IsSent v → convert snake_key (convert camel_key v) ≡ v
  back null h = refl
  back (bool b) h = refl
  back (num n) h = refl
  back (str s) h = refl
  back (arr vs) h = ap arr (back_elems vs h)
  back (obj ps) (d, n, h) =
      ap (λ q. obj (assign end (convert_props snake_key q)))
        (assign_distinct (convert_props camel_key ps) (distinct-camel ps d n))
      ∙ ap (λ q. obj (assign end q)) (back_props ps n h)
      ∙ ap obj (assign_distinct ps d)

  back_elems : (vs : Elems) → AreSent vs → convert_elems snake_key (convert_elems camel_key vs) ≡ vs
  back_elems nil h = refl
  back_elems (cons v vs) (h, hs) = rw (back v h, back_elems vs hs) refl

  back_props :
      (ps : Props)
      → no_upper_keys ps ≡ true
      → HoldSent ps
      → convert_props snake_key (convert_props camel_key ps) ≡ ps
  back_props end n h = refl
  back_props (prop k v ps) n (h, hs) =
      let key : snake_key (camel_key k) ≡ k = snake_key-camel_key k (ground arith) in
      let rest = back_props ps (ground arith) hs in rw (key, back v h, rest) refl

-- A value of the server, in whose objects no key has a capital letter and none is there twice, is sent
-- back as it came when it is renamed as an answer and then as a request.
pub to_snake-to_camel : (v : Json) → IsSent v → to_snake (to_camel v) ≡ v
unfolding to_snake to_camel
to_snake-to_camel v h = back v h
