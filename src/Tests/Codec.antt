-- ===== src/Tests/Codec.antt =====
-- A wire format that is read back as it was written, with signatures that name their signer: the
-- assumptions on the libraries can be met.
use push_anode.Prelude.{
  true, ℕ, zero, suc, ◌≡◌, refl, List, [], ◌∷◌, Option, none, some, Text, Result, ok, err, length,
}
use push_anode.Util.Hex.{Bytes}
use push_anode.Util.Value.{num, undefined}
use push_anode.Wire.{
  Signer, TxValidatorData, TxAttestorData, Transaction, TransactionObj, Block, Failure, type_error,
  Libraries, IsReadBack, InitDid,
}
use push_anode.Validator.Sdk.{Wallets}
use push_anode.Validator.Transactions.Signed.{ReadsTx}

-- An encoder in front of a rest, and a decoder that gives the rest back.
record Codec {ℓ} (A : Type ℓ) : Type ℓ where
  enc : A → Bytes → Bytes
  dec : Bytes → Option (A × Bytes)
  law : (a : A) (rest : Bytes) → dec (enc a rest) ≡ some (a, rest)

dec_nat : Bytes → Option (ℕ × Bytes)
dec_nat [] = none
dec_nat (n ∷ rest) = some (n, rest)

dec_nat_lem : (n : ℕ) (rest : Bytes) → dec_nat (n ∷ rest) ≡ some (n, rest)
unfolding dec_nat
dec_nat_lem n rest = refl

nat_codec : Codec ℕ
unfolding dec_nat
nat_codec = record { enc = λ n rest. n ∷ rest; dec = dec_nat; law = dec_nat_lem }

module _ {ℓ κ} {A : Type ℓ} {B : Type κ} where
  infixl 5 ◌then_read◌
  ◌then_read◌ : Option (A × Bytes) → (A → Bytes → Option (B × Bytes)) → Option (B × Bytes)
  none then_read f = none
  some (a, rest) then_read f = f a rest

module _ {ℓ} {A B : Type ℓ} (c : Codec A) (d : Codec B) where
  dec_pair : Bytes → Option ((A × B) × Bytes)
  dec_pair s = (c.dec s) then_read (λ a r. (d.dec r) then_read (λ b r'. some ((a, b), r')))

  pair_law : (p : A × B) (rest : Bytes) → dec_pair (c.enc p.0 (d.enc p.1 rest)) ≡ some (p, rest)
  unfolding dec_pair ◌then_read◌
  pair_law p rest = rw (c.law p.0 (d.enc p.1 rest), d.law p.1 rest)

  pair_codec : Codec (A × B)
  pair_codec = record { enc = λ p rest. c.enc p.0 (d.enc p.1 rest); dec = dec_pair; law = pair_law }

module _ {ℓ} {A : Type ℓ} (c : Codec A) where
  enc_items : List A → Bytes → Bytes
  enc_items [] rest = rest
  enc_items (x ∷ xs) rest = c.enc x (enc_items xs rest)

  dec_items : ℕ → Bytes → Option (List A × Bytes)
  unfolding ◌then_read◌
  dec_items zero s = some ([], s)
  dec_items (suc n) s =
      (c.dec s) then_read (λ x r. (dec_items n r) then_read (λ xs r'. some (x ∷ xs, r')))

  dec_items_lem :
      (xs : List A) (rest : Bytes) → dec_items (length xs) (enc_items xs rest) ≡ some (xs, rest)
  unfolding dec_items enc_items
  dec_items_lem [] rest = refl
  dec_items_lem (x ∷ xs) rest = rw (c.law x (enc_items xs rest), dec_items_lem xs rest)

  dec_list : Bytes → Option (List A × Bytes)
  unfolding ◌then_read◌
  dec_list s = (dec_nat s) then_read dec_items

  list_law :
      (xs : List A) (rest : Bytes) → dec_list (length xs ∷ enc_items xs rest) ≡ some (xs, rest)
  unfolding dec_list dec_nat
  list_law xs rest = dec_items_lem xs rest

  list_codec : Codec (List A)
  list_codec = record {
    enc = λ xs rest. length xs ∷ enc_items xs rest;
    dec = dec_list;
    law = list_law;
  }

-- A type whose values are those of another type.
module _ {ℓ} {A B : Type ℓ} (to : A → B) (from : B → A) (inverse : (a : A) → from (to a) ≡ a)
    (c : Codec B) where
  dec_as : Bytes → Option (A × Bytes)
  dec_as s = (c.dec s) then_read (λ b r. some (from b, r))

  as_law : (a : A) (rest : Bytes) → dec_as (c.enc (to a) rest) ≡ some (a, rest)
  unfolding dec_as ◌then_read◌
  as_law a rest = rw (c.law (to a) rest, inverse a)

  as_codec : Codec A
  as_codec = record { enc = λ a rest. c.enc (to a) rest; dec = dec_as; law = as_law }

option_items {ℓ} : {A : Type ℓ} → Option A → List A
option_items none = []
option_items (some a) = a ∷ []

items_option {ℓ} : {A : Type ℓ} → List A → Option A
items_option [] = none
items_option (a ∷ _) = some a

items_option-option_items {ℓ} : {A : Type ℓ} (o : Option A) → items_option (option_items o) ≡ o
unfolding option_items items_option
items_option-option_items none = refl
items_option-option_items (some a) = refl

option_codec {ℓ} : {A : Type ℓ} → Codec A → Codec (Option A)
option_codec c = as_codec option_items items_option items_option-option_items (list_codec c)

bytes_codec : Codec Bytes
bytes_codec = list_codec nat_codec

signer_codec : Codec Signer
signer_codec = as_codec (λ s. s.sig) (λ b. record { sig = b }) (λ s. refl) bytes_codec

attestor_codec : Codec TxAttestorData
attestor_codec = as_codec (λ a. a.vote) (λ n. record { vote = n }) (λ a. refl) nat_codec

validator_codec : Codec TxValidatorData
validator_codec =
    as_codec (λ a. (a.vote, a.did_mapping)) (λ p. record { vote = p.0; did_mapping = p.1 })
      (λ a. refl)
      (pair_codec nat_codec (option_codec (list_codec (pair_codec bytes_codec bytes_codec))))

tx_codec : Codec Transaction
tx_codec =
    as_codec
      (λ t. (
        (
          t.type,
          (t.category ∷ t.sender ∷ t.payload ∷ t.salt ∷ t.api_token ∷ t.signature ∷ t.fee ∷ []),
        ),
        t.recipients,
      ))
      tx_of (λ t. refl)
      (pair_codec (pair_codec nat_codec (list_codec bytes_codec)) (list_codec bytes_codec))
  where
    tx_of : (ℕ × List Bytes) × List Text → Transaction
    tx_of ((type, c ∷ s ∷ p ∷ salt ∷ token ∷ sig ∷ fee ∷ _), recipients) = record {
      type = type;
      category = c;
      sender = s;
      recipients = recipients;
      payload = p;
      salt = salt;
      api_token = token;
      signature = sig;
      fee = fee;
    }
    tx_of ((type, _), recipients) = record {
      type = type;
      category = [];
      sender = [];
      recipients = recipients;
      payload = [];
      salt = [];
      api_token = [];
      signature = [];
      fee = [];
    }

tx_obj_codec : Codec TransactionObj
tx_obj_codec =
    as_codec (λ t. ((t.tx, t.validator_data), t.attestor_data))
      (λ p. record { tx = p.0.0; validator_data = p.0.1; attestor_data = p.1 }) (λ t. refl)
      (pair_codec (pair_codec (option_codec tx_codec) (option_codec validator_codec))
        (list_codec attestor_codec))

block_codec : Codec Block
block_codec =
    as_codec (λ b. ((b.ts, b.attest_token), (b.tx_obj, b.signers)))
      (λ p. record { ts = p.0.0; attest_token = p.0.1; tx_obj = p.1.0; signers = p.1.1 })
      (λ b. refl)
      (pair_codec (pair_codec nat_codec bytes_codec)
        (pair_codec (list_codec tx_obj_codec) (list_codec signer_codec)))

decoded {ℓ} : {A : Type ℓ} → Option (A × Bytes) → Result Failure A
decoded none = err type_error
decoded (some (a, rest)) = ok a

-- A signature is the name of its wallet.
unfoldable pub libraries : Libraries
unfolding items_option-option_items as_law pair_law dec_nat_lem list_law dec_items_lem decoded
    block_codec tx_obj_codec tx_codec validator_codec attestor_codec signer_codec bytes_codec
    option_codec items_option option_items as_codec dec_as list_codec dec_list enc_items dec_items
    pair_codec dec_pair nat_codec dec_nat ◌then_read◌
libraries = record {
  serialize_block = λ b. block_codec.enc b [];
  deserialize_block = λ s. decoded (block_codec.dec s);
  serialize_tx = λ t. tx_codec.enc t [];
  block_to_object = λ b. num b.ts;
  tx_obj_to_object = λ t. undefined;
  sha256 = λ s. s;
  crypto_js_sha256 = λ s. s;
  recover_address = λ m sig. ok sig;
}

pub libraries-IsReadBack : (b : Block) → IsReadBack libraries b
unfolding libraries decoded
libraries-IsReadBack b = rw (block_codec.law b [])

abbrev no_account : InitDid
no_account = record { master_pub_key = []; derived_pub_key = []; wallets = [] }

-- An address, a key and a signature are the same bytes.
unfoldable pub wallets : Wallets
unfolding items_option-option_items as_law pair_law dec_nat_lem list_law dec_items_lem decoded
    block_codec tx_obj_codec tx_codec validator_codec attestor_codec signer_codec bytes_codec
    option_codec items_option option_items as_codec dec_as list_codec dec_list enc_items dec_items
    pair_codec dec_pair nat_codec dec_nat ◌then_read◌
wallets = record {
  deserialize_tx = λ s. decoded (tx_codec.dec s);
  deserialize_init_did = λ s. ok no_account;
  utf8_decode = λ s. s;
  utf8_encode = λ s. s;
  compute_address = λ key. ok key;
  verify_message = λ m sig. ok sig;
  bech32_bytes = λ a. ok a;
  get_address = λ a. ok a;
  base58_decode = λ a. ok a;
  verify_detached = λ m sig key. ok true;
}

pub wallets-ReadsTx : (tx : Transaction) → ReadsTx libraries wallets tx
unfolding libraries wallets decoded
wallets-ReadsTx t = rw (tx_codec.law t []) refl
