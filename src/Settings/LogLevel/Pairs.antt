-- ===== src/Settings/LogLevel/Pairs.antt =====
-- The pairs of a mapping of a settings file, after one of its values is replaced or a pair is added.
use warpbox_custom.Prelude.{
  ◌≡◌, refl, sym, ap, inl, inr, Bool, true, false, Option, none, some, Text, codes, text_eq,
  text_eq→eq, if◌then◌else◌, Bool-cases,
}
use warpbox_custom.Settings.LogLevel.{
  Node, node, Nodes, nil, cons, value_of, content_of, set_value, append_pair, find_value,
  replace_value, is_mapping, text_node, document_node, sequence_node, mapping_node, scalar_node,
  alias_node,
}

-- The content of a mapping: keys and values in turn.
abbrev pub Pairs : Nodes → Type 0
Pairs nil = Unit
Pairs (cons key nil) = ⊥
Pairs (cons key (cons val rest)) = Pairs rest

pub record IsMapping (m : Node) : Type 0 where
  pub kind : is_mapping m ≡ true
  pub pairs : Pairs (content_of m)

-- What a reader of the file finds under a key.
unfoldable pub get : Text → Node → Option Node
get key m = if is_mapping m then find_value key (content_of m) else none

-- A scalar that is a string. Of an alias, the node has neither the content nor the value.
unfoldable pub is_text : Node → Bool
unfolding text_eq
is_text (node scalar_node tag value comment content) = text_eq tag (codes "!!str")
is_text m = false

pub is_text-text_node : (v comment : Text) → is_text (text_node v comment) ≡ true
unfolding is_text text_eq
is_text-text_node v comment = refl

pub is_text-set_value : (v : Text) (m : Node) → is_text (set_value v m) ≡ is_text m
unfolding is_text
is_text-set_value v (node document_node tag value comment content) = refl
is_text-set_value v (node sequence_node tag value comment content) = refl
is_text-set_value v (node mapping_node tag value comment content) = refl
is_text-set_value v (node scalar_node tag value comment content) = refl
is_text-set_value v (node alias_node tag value comment content) = refl

-- The log level that the file gives, as a string.
unfoldable pub level_of : Node → Option Text
unfolding get is_text
level_of root = elim (get (codes "logging") root) [
  | none ↦ none
  | some section ↦ elim (get (codes "level") section) [
    | none ↦ none
    | some val ↦ if is_text val then some (value_of val) else none
  ]
]

pub find_value-append_pair_self :
    (text : Text) (key val : Node) (ns : Nodes)
    → Pairs ns
    → find_value text ns ≡ none
    → text_eq (value_of key) text ≡ true
    → find_value text (append_pair key val ns) ≡ some val
unfolding find_value append_pair
find_value-append_pair_self text key val nil p h e = rw e refl
find_value-append_pair_self text key val (cons k nil) p h e = elim p [ ]
find_value-append_pair_self text key val (cons k (cons v rest)) p h e =
    elim (Bool-cases (text_eq (value_of k) text)) [
      | inl t ↦ cc (rw (find_value, t) at h)
      | inr f ↦
          rw (append_pair, find_value, f)
            (find_value-append_pair_self text key val rest p (rw (find_value, f) at h) e)
    ]

pub find_value-append_pair_ne :
    (other : Text) (key val : Node) (ns : Nodes)
    → Pairs ns
    → text_eq (value_of key) other ≡ false
    → find_value other (append_pair key val ns) ≡ find_value other ns
unfolding find_value append_pair
find_value-append_pair_ne other key val nil p e = rw e refl
find_value-append_pair_ne other key val (cons k nil) p e = elim p [ ]
find_value-append_pair_ne other key val (cons k (cons v rest)) p e =
    elim (Bool-cases (text_eq (value_of k) other)) [
      | inl t ↦ rw (append_pair, find_value, t) refl
      | inr f ↦ rw (append_pair, find_value, f) (find_value-append_pair_ne other key val rest p e)
    ]

pub find_value-replace_value_self :
    (text : Text) (old new : Node) (ns : Nodes)
    → find_value text ns ≡ some old
    → find_value text (replace_value text new ns) ≡ some new
unfolding find_value replace_value
find_value-replace_value_self text old new nil h = cc
find_value-replace_value_self text old new (cons k nil) h = cc
find_value-replace_value_self text old new (cons k (cons v rest)) h =
    elim (Bool-cases (text_eq (value_of k) text)) [
      | inl t ↦ rw (replace_value, t, find_value, t) refl
      | inr f ↦
          rw (replace_value, f, find_value, f)
            (find_value-replace_value_self text old new rest (rw (find_value, f) at h))
    ]

pub find_value-replace_value_ne :
    (text other : Text) (new : Node) (ns : Nodes)
    → text_eq text other ≡ false
    → find_value other (replace_value text new ns) ≡ find_value other ns
unfolding find_value replace_value
find_value-replace_value_ne text other new nil h = refl
find_value-replace_value_ne text other new (cons k nil) h = refl
find_value-replace_value_ne text other new (cons k (cons v rest)) h =
    elim (Bool-cases (text_eq (value_of k) text)) [
      | inl t ↦
          let same = text_eq→eq (value_of k) text t in
          let apart : text_eq (value_of k) other ≡ false = rw same h in
          rw (replace_value, t, find_value, apart) refl
      | inr f ↦ elim (Bool-cases (text_eq (value_of k) other)) [
        | inl t ↦ rw (replace_value, f, find_value, t) refl
        | inr g ↦
            rw (replace_value, f, find_value, g) (find_value-replace_value_ne text other new rest h)
      ]
    ]

pub value_of-set_value : (v : Text) (n : Node) → value_of (set_value v n) ≡ v
value_of-set_value v (node k tag value comment content) = refl

pub replace_value_same :
    (text : Text) (old : Node) (ns : Nodes)
    → find_value text ns ≡ some old
    → replace_value text old ns ≡ ns
unfolding find_value replace_value
replace_value_same text old nil h = refl
replace_value_same text old (cons k nil) h = refl
replace_value_same text old (cons k (cons v rest)) h =
    elim (Bool-cases (text_eq (value_of k) text)) [
      | inl t ↦
          let one : v ≡ old = cc (rw (find_value, t) at h) in
          rw (replace_value, t) (ap (λ n. cons k (cons n rest)) (sym one))
      | inr f ↦
          rw (replace_value, f)
            (ap (λ ns. cons k (cons v ns))
              (replace_value_same text old rest (rw (find_value, f) at h)))
    ]
