-- ===== src/Util/Caip/Laws.antt =====
-- The addresses that parse, and their printed form.
use push_anode.Prelude.{
  ℕ, ◌≤◌, ◌≡◌, refl, ap, ◌∙◌, ◌≢◌, ◌↔◌, true, false, Option, none, some, List, [], ◌∷◌, ◌++◌, Text,
  ok, length, All, arith, inl, inr, Result-cases, Option-cases, length-drop,
}
use push_anode.Util.Str.{is_empty, has_size, is_blank}
use push_anode.Util.Split.{split, join, Lacks, join-split, split-Lacks, split-join}
use push_anode.Util.Caip.{
  CaipAddr, colon, addr_max, namespace_max, chain_id_max, strip_0x, check_components,
  parse_components, parse_caip_address, is_full_caip_address, all_components,
}

-- Between `low` and `high` code units.
abbrev pub HasSize : ℕ → ℕ → Text → Type 0
HasSize low high s = (low ≤ length s) × (length s ≤ high)

abbrev IsChainId : Option Text → Type 0
IsChainId none = Unit
IsChainId (some chain_id) = HasSize 1 chain_id_max chain_id × Lacks colon chain_id

-- The addresses that the node accepts; the bound on the address does not count a prefix 0x.
pub record IsCaip (c : CaipAddr) : Type 0 where
  pub namespace_size : HasSize 1 namespace_max c.namespace
  pub namespace_plain : Lacks colon c.namespace
  pub chain_id_valid : IsChainId c.chain_id
  pub addr_size : HasSize 4 addr_max (strip_0x c.addr)
  pub addr_plain : Lacks colon c.addr

abbrev pub components : CaipAddr → List Text
components c = elim c.chain_id [
  | none ↦ c.namespace ∷ c.addr ∷ []
  | some chain_id ↦ c.namespace ∷ chain_id ∷ c.addr ∷ []
]

-- The text of an address.
abbrev pub print_caip : CaipAddr → Text
print_caip c = join colon (components c)

has_size_iff :
    (s : Text) (low high : ℕ)
    → (has_size (some s) (some low) (some high) ≡ true) ↔ HasSize low high s
unfolding has_size
has_size_iff s low high = ground arith

abbrev Sizes : Text → Option Text → Text → Type 0
Sizes namespace chain_id addr =
    HasSize 1 namespace_max namespace
    × elim chain_id [ none ↦ Unit {0} | some ref ↦ HasSize 1 chain_id_max ref ]
    × HasSize 4 addr_max (strip_0x addr)

check_sound :
    (namespace : Text) (chain_id : Option Text) (addr : Text) (c : CaipAddr)
    → check_components namespace chain_id addr ≡ ok c
    → Sizes namespace chain_id addr
      × (c ≡ record { namespace = namespace; chain_id = chain_id; addr = addr })
unfolding check_components
check_sound namespace none addr c e =
    ground (arith, has_size_iff namespace 1 namespace_max, has_size_iff (strip_0x addr) 4 addr_max)
check_sound namespace (some ref) addr c e = ground (
  arith,
  has_size_iff namespace 1 namespace_max,
  has_size_iff ref 1 chain_id_max,
  has_size_iff (strip_0x addr) 4 addr_max,
)

check_complete :
    (namespace : Text) (chain_id : Option Text) (addr : Text)
    → Sizes namespace chain_id addr
    → check_components namespace chain_id addr
      ≡ ok (record { namespace = namespace; chain_id = chain_id; addr = addr })
unfolding check_components
check_complete namespace none addr (n, _, a) =
    rw ((has_size_iff namespace 1 namespace_max).1 n, (has_size_iff (strip_0x addr) 4 addr_max).1 a)
check_complete namespace (some ref) addr (n, r, a) = rw (
  (has_size_iff namespace 1 namespace_max).1 n,
  (has_size_iff ref 1 chain_id_max).1 r,
  (has_size_iff (strip_0x addr) 4 addr_max).1 a,
)

parse_components_sound :
    (parts : List Text) (c : CaipAddr)
    → parse_components parts ≡ ok c
    → All (Lacks colon) parts
    → IsCaip c × (components c ≡ parts)
unfolding parse_components
parse_components_sound (n ∷ a ∷ []) c e (hn, (ha, _)) =
    let ((sn, _, sa), same) = check_sound n none a c e in
    rw same (
      record {
        namespace_size = sn;
        namespace_plain = hn;
        chain_id_valid = tt;
        addr_size = sa;
        addr_plain = ha;
      },
      refl,
    )
parse_components_sound (n ∷ r ∷ a ∷ []) c e (hn, (hr, (ha, _))) =
    let ((sn, sr, sa), same) = check_sound n (some r) a c e in
    rw same (
      record {
        namespace_size = sn;
        namespace_plain = hn;
        chain_id_valid = (sr, hr);
        addr_size = sa;
        addr_plain = ha;
      },
      refl,
    )
parse_components_sound [] c e h = cc
parse_components_sound (n ∷ []) c e h = cc
parse_components_sound (n ∷ r ∷ a ∷ b ∷ parts) c e h = cc

parse_components_complete :
    (n : Text) (chain_id : Option Text) (a : Text)
    → (let c : CaipAddr = record { namespace = n; chain_id = chain_id; addr = a } in
        IsCaip c → parse_components (components c) ≡ ok c)
unfolding parse_components
parse_components_complete n none a v = check_complete n none a (v.namespace_size, tt, v.addr_size)
parse_components_complete n (some r) a v =
    check_complete n (some r) a (v.namespace_size, v.chain_id_valid.0, v.addr_size)

-- A colon is no white space.
not_blank : (s t : Text) → is_blank (s ++ (colon ∷ t)) ≡ false
unfolding is_blank
not_blank [] t = refl
not_blank (c ∷ s) t = ground (arith, not_blank s t)

not_empty : (s t : Text) → is_empty (some (s ++ (colon ∷ t))) ≡ false
unfolding is_empty
not_empty [] t = ground arith
not_empty (c ∷ s) t = ground arith

parse_print :
    (n : Text) (chain_id : Option Text) (a : Text)
    → (let c : CaipAddr = record { namespace = n; chain_id = chain_id; addr = a } in
        IsCaip c → parse_caip_address (print_caip c) ≡ ok c)
unfolding parse_caip_address
parse_print n none a v =
    rw
      (
        split-join colon n (a ∷ []) (v.namespace_plain, (v.addr_plain, tt)),
        parse_components_complete n none a v,
      )
      (unfold join in rw (not_empty n a, not_blank n a))
parse_print n (some r) a v =
    rw
      (
        split-join colon n (r ∷ a ∷ [])
            (v.namespace_plain, (v.chain_id_valid.1, (v.addr_plain, tt))),
        parse_components_complete n (some r) a v,
      )
      (unfold join in rw (not_empty n (r ++ (colon ∷ a)), not_blank n (r ++ (colon ∷ a))))

parse_sound :
    (s : Text) (c : CaipAddr) → parse_caip_address s ≡ ok c → IsCaip c × (print_caip c ≡ s)
unfolding parse_caip_address
parse_sound s c e =
    let h : parse_components (split colon s) ≡ ok c = ground arith in
    let (v, same) = parse_components_sound (split colon s) c h (split-Lacks colon s) in
    (v, ap (join colon) same ∙ join-split colon s)

-- An address parses to `c` exactly when `c` is well formed and prints as that address.
pub parse_caip_address_iff :
    (s : Text) (c : CaipAddr) → (parse_caip_address s ≡ ok c) ↔ (IsCaip c × (print_caip c ≡ s))
parse_caip_address_iff s c =
    (parse_sound s c, λ (v, e). rw (← e) (parse_print c.namespace c.chain_id c.addr v))

strip_0x-le : (s : Text) → length (strip_0x s) ≤ length s
unfolding strip_0x
strip_0x-le s = ground (arith, length-drop 2 s)

abbrev pub IsFull : CaipAddr → Type 0
IsFull c = IsCaip c × (c.chain_id ≢ none)

full_sound : (c : CaipAddr) → IsCaip c → all_components (ok c) ≡ true → c.chain_id ≢ none
unfolding is_empty
full_sound c v e = ground arith

full_complete : (c : CaipAddr) → IsFull c → all_components (ok c) ≡ true
unfolding is_empty
full_complete c (v, ne) = elim (Option-cases c.chain_id) [
  | inl e ↦ absurd (ne e)
  | inr (r, e) ↦
      let sized : IsChainId (some r) = rw e at v.chain_id_valid in
      rw e (ground (arith, strip_0x-le c.addr, v.namespace_size, v.addr_size, sized))
]

-- An address is in full form exactly when it is the text of a well formed one with a chain.
pub is_full_caip_address_iff :
    (s : Text) → (is_full_caip_address s ≡ true) ↔ ((c : CaipAddr) × IsFull c × (print_caip c ≡ s))
unfolding is_full_caip_address
is_full_caip_address_iff s = (
  λ e. elim (Result-cases (parse_caip_address s)) [
    | inl (c, p) ↦ let (v, same) = parse_sound s c p in (c, (v, full_sound c v (rw p at e)), same)
    | inr (x, p) ↦ absurd (cc (p, e))
  ],
  λ (c, full, same). rw ((parse_caip_address_iff s c).1 (full.0, same)) (full_complete c full),
)
