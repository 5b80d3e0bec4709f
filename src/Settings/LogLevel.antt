-- ===== src/Settings/LogLevel.antt =====
-- `UpdateLogLevel` of internal/config/config.go, on the tree that the YAML library makes of the file.
-- Whether the file can be read, encoded and written are arguments.
pub mod Pairs
pub mod Updated
pub mod Samples
mod Tests
use warpbox_custom.Prelude.{
  ◌≡◌, Bool, true, false, Option, none, some, [], Text, codes, text_eq, if◌then◌else◌, Result, ok,
  err,
}
use warpbox_custom.Settings.{parse_level}

-- The kinds of a `yaml.Node`.
pub data Kind : Type 0 where
  document_node sequence_node mapping_node scalar_node alias_node : Kind

-- `yaml.Node`: its kind, tag, value, head comment and content; the node that an alias stands for,
-- its anchor and its style are read by no function here.
mutual
  pub data Node : Type 0 where
    node : Kind → (tag value comment : Text) → Nodes → Node

  pub data Nodes : Type 0 where
    nil : Nodes
    cons : Node → Nodes → Nodes

abbrev pub kind_of : Node → Kind
kind_of (node k tag value comment content) = k

abbrev pub value_of : Node → Text
value_of (node k tag value comment content) = value

abbrev pub content_of : Node → Nodes
content_of (node k tag value comment content) = content

abbrev pub set_value : Text → Node → Node
set_value v (node k tag value comment content) = node k tag v comment content

abbrev pub set_content : Nodes → Node → Node
set_content ns (node k tag value comment content) = node k tag value comment ns

abbrev pub text_node : Text → (comment : Text) → Node
text_node v comment = node scalar_node (codes "!!str") v comment nil

unfoldable pub append_pair : Node → Node → Nodes → Nodes
append_pair key val nil = cons key (cons val nil)
append_pair key val (cons n ns) = cons n (append_pair key val ns)

-- The loops over the pairs of a mapping's content: the value behind the first key with a text, and
-- the content in which another stands in its place.
unfoldable pub find_value : Text → Nodes → Option Node
find_value text nil = none
find_value text (cons key nil) = none
find_value text (cons key (cons val rest)) =
    let later = find_value text rest in if text_eq (value_of key) text then some val else later

unfoldable pub replace_value : Text → Node → Nodes → Nodes
replace_value text new nil = nil
replace_value text new (cons key nil) = cons key nil
replace_value text new (cons key (cons val rest)) =
    let later = replace_value text new rest in
    if text_eq (value_of key) text then cons key (cons new rest) else cons key (cons val later)

-- `updateLevelInConfig`, and whether it makes a change.
unfoldable pub update_level_in_config : Text → Node → Node × Bool
unfolding find_value replace_value append_pair
update_level_in_config level m = elim (find_value (codes "level") (content_of m)) [
  | none ↦ (
    set_content (append_pair (text_node (codes "level") []) (text_node level []) (content_of m)) m,
    true,
  )
  | some val ↦ if text_eq (value_of val) level then (m, false) else (
    set_content (replace_value (codes "level") (set_value level val) (content_of m)) m,
    true,
  )
]

-- `appendLoggingSection`
unfoldable pub append_logging_section : Text → Node → Node
unfolding append_pair
append_logging_section level root =
    let pair = append_pair (text_node (codes "level") []) (text_node level []) nil in
    let section = node mapping_node (codes "!!map") [] [] pair in
    set_content
      (append_pair (text_node (codes "logging") (codes "Log level set via web UI")) section
        (content_of root))
      root

-- The tree with the level, and whether it differs.
unfoldable pub update_tree : Text → Node → Node × Bool
unfolding find_value replace_value update_level_in_config append_logging_section
update_tree level root = elim (find_value (codes "logging") (content_of root)) [
  | none ↦ (append_logging_section level root, true)
  | some section ↦
      let (section', changed) = update_level_in_config level section in
      (set_content (replace_value (codes "logging") section' (content_of root)) root, changed)
]

-- What the file system holds at the path: the tree of the file, or the error of reading it.
pub record File : Type 0 where
  pub tree : Result Text Node
  pub write_error : Option Text

-- The first error of the encoding, of the temporary file and of the renaming leaves the file.
abbrev pub written : Node → File → Option Text × File
written root f = elim f.write_error [
  | some e ↦ (some e, f)
  | none ↦ (none, record f { tree = ok root })
]

abbrev pub is_mapping_kind : Kind → Bool
is_mapping_kind mapping_node = true
is_mapping_kind document_node = false
is_mapping_kind sequence_node = false
is_mapping_kind scalar_node = false
is_mapping_kind alias_node = false

abbrev pub is_mapping : Node → Bool
is_mapping (node k tag value comment content) = is_mapping_kind k

-- The tree is the root of the one document.
unfoldable pub update_log_level : Text → File → Option Text × File
update_log_level level f = elim (parse_level level) [
  | none ↦ (some (codes "invalid level"), f)
  | some l ↦ elim f.tree [
    | err e ↦ (some e, f)
    | ok root ↦
        if is_mapping root
        then (let (root', changed) = update_tree level root in
            if changed then written root' f else (none, f))
        else (some (codes "unexpected YAML structure: expected root mapping"), f)
  ]
]
