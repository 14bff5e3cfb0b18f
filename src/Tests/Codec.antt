-- ===== src/Tests/Codec.antt =====
-- Tokens as bytes, for the small environment: every list stands behind its length.
use k_chain_vm_common_go.Common.{
  ℕ, zero, suc, ◌≡◌, ◌≢◌, refl, sym, ◌∙◌, ap, List, [], ◌∷◌, ◌++◌, Option, none, some, Bytes, arith,
  length, take, drop, take-append, drop-append,
}
use k_chain_vm_common_go.Common.Int.{ℤ, pos, negsuc}
use k_chain_vm_common_go.Errors.{other_error, Result, ok, err, host}
use k_chain_vm_common_go.Vm.{DigitalToken, MetaData}

abbrev write_list : Bytes → Bytes → Bytes
write_list xs rest = length xs ∷ (xs ++ rest)

abbrev read_list : Bytes → Bytes × Bytes
read_list [] = ([], [])
read_list (n ∷ bs) = (take n bs, drop n bs)

read_list-write_list : (xs rest : Bytes) → read_list (write_list xs rest) ≡ (xs, rest)
read_list-write_list xs rest = rw (take-append xs rest, drop-append xs rest) refl

abbrev put_all : List Bytes → Bytes
put_all [] = []
put_all (u ∷ us) = write_list u (put_all us)

abbrev get_all : ℕ → Bytes → List Bytes
get_all zero bs = []
get_all (suc n) bs = (read_list bs).0 ∷ get_all n (read_list bs).1

get_all-put_all : (us : List Bytes) → get_all (length us) (put_all us) ≡ us
get_all-put_all [] = refl
get_all-put_all (u ∷ us) =
    rw (take-append u (put_all us), drop-append u (put_all us), get_all-put_all us) refl

abbrev put_meta : Option MetaData → Bytes
put_meta none = []
put_meta (some m) =
    m.nonce
    ∷ m.royalties
    ∷ write_list m.name (
        write_list m.creator
          (write_list m.hash (write_list m.attributes (length m.uris ∷ put_all m.uris))))

abbrev get_uris : Bytes → List Bytes
get_uris [] = []
get_uris (n ∷ bs) = get_all n bs

abbrev get_meta : Bytes → Option MetaData
get_meta (n ∷ r ∷ bs) =
    let (name, b1) = read_list bs in
    let (creator, b2) = read_list b1 in
    let (hash, b3) = read_list b2 in
    let (attributes, b4) = read_list b3 in
    some (record {
      nonce = n;
      name = name;
      creator = creator;
      royalties = r;
      hash = hash;
      uris = get_uris b4;
      attributes = attributes;
    })
get_meta _ = none

get_meta-put_meta : (m : Option MetaData) → get_meta (put_meta m) ≡ m
get_meta-put_meta none = refl
get_meta-put_meta (some m) = simp (take-append, drop-append, get_all-put_all)

abbrev pub marshal_fields : ℕ → ℤ → Bytes → Option MetaData → Bytes → Result Bytes
marshal_fields t (pos n) properties m reserved =
    ok (n ∷ t ∷ write_list properties (write_list reserved (put_meta m)))
marshal_fields _ _ _ _ _ = err (host (other_error 0))

abbrev pub unmarshal_fields : Bytes → Result DigitalToken
unmarshal_fields [] = err (host (other_error 0))
unmarshal_fields (n ∷ []) = ok (record {
  token_type = 0;
  value = pos n;
  properties = [];
  token_meta_data = none;
  reserved = [];
})
unmarshal_fields (n ∷ t ∷ bs) =
    let (properties, b1) = read_list bs in
    let (reserved, b2) = read_list b1 in
    ok (record {
      token_type = t;
      value = pos n;
      properties = properties;
      token_meta_data = get_meta b2;
      reserved = reserved;
    })

abbrev read_result : Result Bytes → Result DigitalToken
read_result (ok b) = unmarshal_fields b
read_result (err x) = err x

written_read_back :
    (n v : ℕ) (p : Bytes) (m : Option MetaData) (r : Bytes)
    → unmarshal_fields (v ∷ n ∷ write_list p (write_list r (put_meta m)))
      ≡ ok (record {
        token_type = n;
        value = pos v;
        properties = p;
        token_meta_data = m;
        reserved = r;
      })
written_read_back n v p m r = simp (take-append, drop-append, get_meta-put_meta)

pub fields_read_back :
    (n : ℕ) (v : ℤ) (p : Bytes) (m : Option MetaData) (r b : Bytes)
    → marshal_fields n v p m r ≡ ok b
    → unmarshal_fields b
      ≡ ok (record { token_type = n; value = v; properties = p; token_meta_data = m; reserved = r })
fields_read_back n (pos v) p m r b h = ap read_result (sym h) ∙ written_read_back n v p m r
fields_read_back n (negsuc v) p m r b h = absurd (cc h)

pub fields_ne_nil :
    (n : ℕ) (v : ℤ) (p : Bytes) (m : Option MetaData) (r : Bytes) → marshal_fields n v p m r ≢ ok []
fields_ne_nil n v p m r h = ground arith
