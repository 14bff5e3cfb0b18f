-- ===== src/TransferParser/RoundTrip.antt =====
-- parsers/dcdtTransferParser.go: the arguments of a multi transfer, as the sender writes them.
use k_chain_vm_common_go.Common.{
  ℕ, suc, ◌+◌, ◌*◌, ◌%◌, ◌^◌, ◌==◌, if◌then◌else◌, Option, ◌≤◌, ◌<◌, ◌≡◌, refl, ◌∙◌, ap, true,
  false, List, [], ◌∷◌, ◌++◌, map, Bytes, arith, length, get_or, drop, ltb, length-append,
}
use k_chain_vm_common_go.Common.Int.{ℤ, pos}
use k_chain_vm_common_go.Numbers.{u64_mod, set_bytes, to_u64}
use k_chain_vm_common_go.Errors.{Result, ok}
use k_chain_vm_common_go.Env.{Core}
use k_chain_vm_common_go.TransferParser.{
  DcdtTransfer, max_slice_length, args_per_transfer, create_new_dcdt_transfer, create_transfers,
  multi_head, parse_transfers, parse_multi_dcdt_nft_transfer,
}

-- The three arguments of a transfer.
pub record RawTransfer : Type 0 where
  pub token_name : Bytes
  pub nonce : Bytes
  pub value : Bytes

abbrev pub raw_arguments : List RawTransfer → List Bytes
raw_arguments [] = []
raw_arguments (t ∷ ts) = t.token_name ∷ t.nonce ∷ t.value ∷ raw_arguments ts

length-raw_arguments : (ts : List RawTransfer) → length (raw_arguments ts) ≡ 3 * length ts
length-raw_arguments [] = refl
length-raw_arguments (t ∷ ts) = omega (arith, length-raw_arguments ts)

pair : {A B : Type 0} {a a' : A} {b b' : B} → a ≡ a' → b ≡ b' → ◌≡◌ {A = A × B} (a, b) (a', b')
pair p q i = (p i, q i)

module _ {ℓ} {A : Type ℓ} where
  get_or-append : (xs ys : List A) (d : A) → get_or (xs ++ ys) (length xs) d ≡ get_or ys 0 d
  get_or-append [] ys d = refl
  get_or-append (x ∷ xs) ys d = get_or-append xs ys d

  drop_next-append : (xs ys : List A) → drop (suc (length xs)) (xs ++ ys) ≡ drop 1 ys
  drop_next-append [] ys = refl
  drop_next-append (x ∷ xs) ys = drop_next-append xs ys

-- The transfer that the arguments describe: the value and the nonce are big-endian numbers, the nonce
-- a uint64, and a token without a nonce is fungible.
abbrev pub described : Core → RawTransfer → DcdtTransfer
described c t =
    let n = set_bytes t.nonce % 2 ^ 64 in
    record {
      dcdt_value = pos (set_bytes t.value);
      dcdt_token_name = t.token_name;
      dcdt_token_type = if n == 0 then c.fungible else c.non_fungible;
      dcdt_token_nonce = n;
    }

module _ (c : Core) (unmarshal_value : Bytes → Result (Option ℤ)) where
  create_transfers-raw_arguments :
      (ts : List RawTransfer) (tail : List Bytes)
      → create_transfers c unmarshal_value true (length ts) (raw_arguments ts ++ tail)
        ≡ ok (map (described c) ts)
  unfolding create_transfers create_new_dcdt_transfer to_u64
  create_transfers-raw_arguments [] tail = refl
  create_transfers-raw_arguments (t ∷ ts) tail =
      ground (arith, create_transfers-raw_arguments ts tail)

  sender_head :
      (rcv_addr receiver count : Bytes) (n : ℕ) (rest : List Bytes)
      → length receiver ≡ length rcv_addr
      → u64_mod ≤ set_bytes receiver
      → set_bytes count ≡ n
      → n ≤ max_slice_length
      → multi_head c unmarshal_value rcv_addr (receiver ∷ count ∷ rest) ≡ record {
        receiver = receiver;
        is_tx_at_sender = true;
        num_of_transfer = n;
        start_index = 2;
      }
  unfolding multi_head to_u64
  sender_head rcv_addr receiver count n rest same big number few = ground arith

  parse_transfers-raw_arguments :
      (receiver count : Bytes) (ts : List RawTransfer) (call : List Bytes)
      → length ts ≤ max_slice_length
      → parse_transfers c unmarshal_value
          (record {
            receiver = receiver;
            is_tx_at_sender = true;
            num_of_transfer = length ts;
            start_index = 2;
          })
          (receiver ∷ count ∷ (raw_arguments ts ++ call))
        ≡ ok (record {
          dcdt_transfers = map (described c) ts;
          rcv_addr = receiver;
          call_function = get_or call 0 [];
          call_args = drop 1 call;
        })
  unfolding parse_transfers
  parse_transfers-raw_arguments receiver count ts call few =
      let args = receiver ∷ count ∷ (raw_arguments ts ++ call) in
      let m = (args_per_transfer * length ts + 2) % u64_mod in
      let least : m ≡ suc (suc (length (raw_arguments ts))) =
        omega (arith, length-raw_arguments ts, few) in
      let enough : ltb (length args) m ≡ false =
        ground (arith, least, length-append (raw_arguments ts) call) in
      let short : ltb max_slice_length (length ts) ≡ false = ground arith in
      let function : get_or args m [] ≡ get_or call 0 [] =
        ap (λ k. get_or args k []) least ∙ get_or-append (raw_arguments ts) call [] in
      let next : m + 1 ≡ suc (suc (suc (length (raw_arguments ts)))) = omega (arith, least) in
      let arguments : drop (m + 1) args ≡ drop 1 call =
        ap (λ k. drop k args) next ∙ drop_next-append (raw_arguments ts) call in
      rw (enough, short, create_transfers-raw_arguments ts call)
        (ap
          (λ (r : Bytes × List Bytes). ok (record {
            dcdt_transfers = map (described c) ts;
            rcv_addr = receiver;
            call_function = r.0;
            call_args = r.1;
          }))
          (pair function arguments))

  -- A multi transfer on the sender's side: the receiver, the number of transfers, three arguments for
  -- each, and then the call. Where the receiver is as long as an address and no uint64, and the
  -- number is that of the transfers, of which there are between one and 2 ^ 45, the parser gives the
  -- receiver, the function and its arguments, and for each transfer its token, the number that its
  -- value spells, the one that its nonce spells modulo 2 ^ 64, and the type: fungible where that
  -- nonce is 0, and else non-fungible.
  pub parse_multi-raw_arguments :
      (rcv_addr receiver count : Bytes) (ts : List RawTransfer) (call : List Bytes)
      → length receiver ≡ length rcv_addr
      → u64_mod ≤ set_bytes receiver
      → set_bytes count ≡ length ts
      → 0 < length ts
      → length ts ≤ max_slice_length
      → parse_multi_dcdt_nft_transfer c unmarshal_value rcv_addr
          (receiver ∷ count ∷ (raw_arguments ts ++ call))
        ≡ ok (record {
          dcdt_transfers = map (described c) ts;
          rcv_addr = receiver;
          call_function = get_or call 0 [];
          call_args = drop 1 call;
        })
  unfolding parse_multi_dcdt_nft_transfer
  parse_multi-raw_arguments rcv_addr receiver count ts call same big number some few =
      let rest = raw_arguments ts ++ call in
      let enough : ltb (suc (suc (length rest))) 4 ≡ false =
        ground (arith, length-append (raw_arguments ts) call, length-raw_arguments ts) in
      rw (enough, sender_head rcv_addr receiver count (length ts) rest same big number few)
        (parse_transfers-raw_arguments receiver count ts call few)
