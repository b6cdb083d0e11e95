-- ===== src/Util/Caip.antt =====
-- src/utilz/chainUtil.ts: chain-agnostic addresses, namespace:chainId:address or
-- namespace:address.
pub mod Laws
use push_anode.Prelude.{
  ℕ, Bool, true, false, not, ◌&&◌, ◌||◌, Option, none, some, List, [], ◌∷◌, ◌++◌, Text, lit, Result,
  ok, err, ◌>>=◌, ◌>>◌, guard, ◌==◌, nat_eq, text_eq, starts_with, drop, if◌then◌else◌,
}
use push_anode.Collections.Set
use push_anode.Collections.Set.{Set}
use push_anode.Util.Str.{is_empty, has_size, is_blank}
use push_anode.Util.Split.{split}

-- CaipAddr: `chain_id` is null in the form of two components.
pub record CaipAddr : Type 0 where
  pub namespace : Text
  pub chain_id : Option Text
  pub addr : Text

-- The messages of parseCaipAddress, with the value that each quotes.
pub data CaipError : Type 0 where
  address_empty : CaipError
  bad_format : CaipError
  bad_namespace : Text → CaipError
  bad_chain_id : Text → CaipError
  bad_address : Text → CaipError

abbrev pub colon : ℕ
colon = b':'

abbrev pub addr_max : ℕ
addr_max = 65

abbrev pub namespace_max : ℕ
namespace_max = 8

abbrev pub chain_id_max : ℕ
chain_id_max = 32

-- addr.startsWith('0x') ? addr.substring(2) : addr
unfoldable pub strip_0x : Text → Text
strip_0x addr = if starts_with (lit "0x") addr then drop 2 addr else addr

abbrev pub chain_id_ok : Option Text → Bool
chain_id_ok none = true
chain_id_ok (some chain_id) = has_size (some chain_id) (some 1) (some chain_id_max)

abbrev pub text_or_empty : Option Text → Text
text_or_empty none = []
text_or_empty (some s) = s

-- The checks on the components.
unfoldable pub check_components : Text → Option Text → Text → Result CaipError CaipAddr
check_components namespace chain_id addr = do
  guard (has_size (some namespace) (some 1) (some namespace_max)) (bad_namespace namespace)
  guard (chain_id_ok chain_id) (bad_chain_id (text_or_empty chain_id))
  guard (has_size (some (strip_0x addr)) (some 4) (some addr_max)) (bad_address addr)
  ok (record { namespace = namespace; chain_id = chain_id; addr = addr })

unfoldable pub parse_components : List Text → Result CaipError CaipAddr
parse_components (namespace ∷ chain_id ∷ addr ∷ []) =
    check_components namespace (some chain_id) addr
parse_components (namespace ∷ addr ∷ []) = check_components namespace none addr
parse_components _ = err bad_format

-- parseCaipAddress
unfoldable pub parse_caip_address : Text → Result CaipError CaipAddr
parse_caip_address address =
    if is_empty (some address) || is_blank address
    then err address_empty
    else parse_components (split colon address)

abbrev all_components : Result CaipError CaipAddr → Bool
all_components (err e) = false
all_components (ok caip) =
    not (is_empty caip.chain_id)
    && (not (is_empty (some caip.namespace)) && not (is_empty (some caip.addr)))

-- isFullCAIPAddress
unfoldable pub is_full_caip_address : Text → Bool
is_full_caip_address address = all_components (parse_caip_address address)

abbrev in_push_did : Result CaipError CaipAddr → Bool
in_push_did (err e) = false
in_push_did (ok caip) = caip.namespace == lit "PUSH_DID"

-- isPushDid
unfoldable pub is_push_did : Text → Bool
is_push_did did = in_push_did (parse_caip_address did)

-- The chain of an address that has three components or more.
abbrev chain_of : List Text → Option Text
chain_of (namespace ∷ reference ∷ _ ∷ _) = some (namespace ++ (colon ∷ reference))
chain_of _ = none

abbrev add_chain : Set Text → Option Text → Set Text
add_chain chain_ids none = chain_ids
add_chain chain_ids (some chain_id) = Set.add chain_ids chain_id

chains_from : Set Text → List Text → Set Text
chains_from chain_ids [] = chain_ids
chains_from chain_ids (addr ∷ addresses) =
    chains_from (add_chain chain_ids (chain_of (split colon addr))) addresses

-- extractChainIds
unfoldable pub extract_chain_ids : List Text → List Text
unfolding chains_from
extract_chain_ids addresses = chains_from [] addresses
