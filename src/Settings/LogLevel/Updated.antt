-- ===== src/Settings/LogLevel/Updated.antt =====
-- What a changed level leaves in the settings file.
use warpbox_custom.Prelude.{
  arith, ◌≡◌, refl, subst, ap, ◌∙◌, inl, inr, true, false, Option, none, some, Option-cases, [],
  Text, codes, text_eq, text_eq_refl, text_eq→eq, if◌then◌else◌, ok, Bool-cases,
}
use warpbox_custom.Settings.{Level, parse_level}
use warpbox_custom.Settings.LogLevel.{
  mapping_node, scalar_node, Node, node, Nodes, nil, cons, value_of, content_of, set_value,
  set_content, text_node, find_value, replace_value, update_level_in_config, append_logging_section,
  update_tree, File, written, is_mapping, update_log_level,
}
use warpbox_custom.Settings.LogLevel.Pairs.{
  is_text, is_text-text_node, is_text-set_value, Pairs, IsMapping, get, level_of,
  find_value-append_pair_self, find_value-append_pair_ne, find_value-replace_value_self,
  find_value-replace_value_ne, value_of-set_value, replace_value_same,
}

-- What a section has after the change: the level under its key, and all else as it was.
pub record Changed (level : Text) (section section' : Node) : Type 0 where
  pub level_val :
      (val : Node) × (get (codes "level") section' ≡ some val)
      × (value_of val ≡ level)
      × (is_text val ≡ true)
  pub others :
      (key : Text) → text_eq (codes "level") key ≡ false → get key section' ≡ get key section

update_level_in_config-Changed :
    (level tag v c : Text) (ns : Nodes)
    → Pairs ns
    → ((val : Node) → find_value (codes "level") ns ≡ some val → is_text val ≡ true)
    → Changed level
        (node mapping_node tag v c ns)
        (update_level_in_config level (node mapping_node tag v c ns)).0
unfolding update_level_in_config get
update_level_in_config-Changed level tag v c ns p texts =
    elim (Option-cases (find_value (codes "level") ns)) [
      | inl e ↦
          rw (update_level_in_config, e)
            record {
              level_val = (
                text_node level [],
                find_value-append_pair_self (codes "level") _ _ ns p e
                    (text_eq_refl (codes "level")),
                refl,
                is_text-text_node level [],
              );
              others = λ key h. find_value-append_pair_ne key _ _ ns p h;
            }
      | inr (val, e) ↦ elim (Bool-cases (text_eq (value_of val) level)) [
        | inl same ↦
            rw (update_level_in_config, e, same)
              record {
                level_val = (val, e, text_eq→eq (value_of val) level same, texts val e);
                others = λ key h. refl;
              }
        | inr new ↦
            rw (update_level_in_config, e, new)
              record {
                level_val = (
                  set_value level val,
                  find_value-replace_value_self (codes "level") val _ ns e,
                  value_of-set_value level val,
                  is_text-set_value level val ∙ texts val e,
                );
                others = λ key h. find_value-replace_value_ne (codes "level") key _ ns h;
              }
      ]
    ]

-- What the file has after the change: the level, its other sections, and the other entries of the
-- section "logging".
pub record Updated (level : Text) (root root' : Node) : Type 0 where
  pub reads : level_of root' ≡ some level
  pub sections : (key : Text) → text_eq (codes "logging") key ≡ false → get key root' ≡ get key root
  pub entries :
      (section : Node)
      → get (codes "logging") root ≡ some section
      → (section' : Node) × (get (codes "logging") root' ≡ some section')
        × ((key : Text) → text_eq (codes "level") key ≡ false → get key section' ≡ get key section)

level_of-eq :
    (root section val : Node) (level : Text)
    → get (codes "logging") root ≡ some section
    → get (codes "level") section ≡ some val
    → value_of val ≡ level
    → is_text val ≡ true
    → level_of root ≡ some level
unfolding level_of
level_of-eq root section val level h e v t = rw (level_of, h, e, t) (ap (λ t. some t) v)

-- The section under "logging", if there is one, is a mapping, and its "level", if it has one, a string.
abbrev pub IsLogged : Node → Type 0
IsLogged root =
    (section : Node)
    → get (codes "logging") root ≡ some section
    → IsMapping section
      × ((val : Node) → get (codes "level") section ≡ some val → is_text val ≡ true)

section-Changed :
    (level : Text) (m : Node)
    → IsMapping m
    → ((val : Node) → get (codes "level") m ≡ some val → is_text val ≡ true)
    → Changed level m (update_level_in_config level m).0
unfolding get
section-Changed level (node mapping_node tag v c ns) p texts =
    update_level_in_config-Changed level tag v c ns p.pairs texts
section-Changed level m p texts = cc (p.kind)

abbrev new_section : Text → Node
new_section level =
    node mapping_node (codes "!!map") [] []
      (cons (text_node (codes "level") []) (cons (text_node level []) nil))

get-new_section :
    (level : Text) → get (codes "level") (new_section level) ≡ some (text_node level [])
unfolding get find_value
get-new_section level = rw (text_eq_refl (codes "level")) refl

update_tree-Updated :
    (level tag v c : Text) (ns : Nodes)
    → Pairs ns
    → IsLogged (node mapping_node tag v c ns)
    → Updated level
        (node mapping_node tag v c ns)
        (update_tree level (node mapping_node tag v c ns)).0
unfolding update_tree get append_logging_section
update_tree-Updated level tag v c ns p l = elim (Option-cases (find_value (codes "logging") ns)) [
  | inl e ↦
      rw (update_tree, e)
        record {
          reads =
              level_of-eq _ (new_section level) (text_node level []) level
                (find_value-append_pair_self (codes "logging") _ _ ns p e
                  (text_eq_refl (codes "logging")))
                (get-new_section level) refl (is_text-text_node level []);
          sections = λ key h. find_value-append_pair_ne key _ _ ns p h;
          entries = λ section h. cc (e, h);
        }
  | inr (section, e) ↦
      let ch = section-Changed level section (l section e).0 (l section e).1 in
      let (val, found, same, text) = ch.level_val in
      let there =
        find_value-replace_value_self (codes "logging") section
          (update_level_in_config level section).0 ns e in
      rw (update_tree, e)
        record {
          reads = level_of-eq _ _ val level there found same text;
          sections = λ key h. find_value-replace_value_ne (codes "logging") key _ ns h;
          entries = λ other h. (
            (update_level_in_config level section).0,
            there,
            λ key g. let one : section ≡ other = cc (e, h) in ch.others key g ∙ ap (get key) one,
          );
        }
]

-- How a change of the level ends: with no error, and the settings changed in the file; or with the
-- error of the writing, and the file as it was.
abbrev pub Outcome : Text → Node → File → Option Text → File → Type 0
Outcome level root f none f' = (root' : Node) × (f'.tree ≡ ok root') × Updated level root root'
Outcome level root f (some e) f' = (f.write_error ≡ some e) × (f' ≡ f)

update_level_in_config_same :
    (level : Text) (m : Node)
    → (update_level_in_config level m).1 ≡ false
    → (update_level_in_config level m).0 ≡ m
unfolding update_level_in_config
update_level_in_config_same level m h =
    elim (Option-cases (find_value (codes "level") (content_of m))) [
      | inl e ↦ cc (rw (update_level_in_config, e) at h)
      | inr (val, e) ↦ elim (Bool-cases (text_eq (value_of val) level)) [
        | inl same ↦ rw (update_level_in_config, e, same) refl
        | inr new ↦ cc (rw (update_level_in_config, e, new) at h)
      ]
    ]

update_tree_same :
    (level tag v c : Text) (ns : Nodes)
    → (update_tree level (node mapping_node tag v c ns)).1 ≡ false
    → (update_tree level (node mapping_node tag v c ns)).0 ≡ node mapping_node tag v c ns
unfolding update_tree
update_tree_same level tag v c ns h = elim (Option-cases (find_value (codes "logging") ns)) [
  | inl e ↦ cc (rw (update_tree, e) at h)
  | inr (section, e) ↦
      let same = update_level_in_config_same level section (rw (update_tree, e) at h) in
      rw (update_tree, e, same)
        (ap (node mapping_node tag v c) (replace_value_same (codes "logging") section ns e))
]

update_log_level-eq :
    (level : Text) (l : Level) (f : File) (root : Node)
    → parse_level level ≡ some l
    → f.tree ≡ ok root
    → is_mapping root ≡ true
    → update_log_level level f
      ≡ (if (update_tree level root).1 then written (update_tree level root).0 f else (none, f))
unfolding update_log_level
update_log_level-eq level l f root v t m = ground (arith, v, t, m)

written-Outcome :
    (level : Text) (f : File) (root root' : Node)
    → Updated level root root'
    → Outcome level root f (written root' f).0 (written root' f).1
written-Outcome level f root root' u = elim (Option-cases f.write_error) [
  | inl e ↦ rw e (root', refl, u)
  | inr (message, e) ↦ rw e (refl, refl)
]

-- For a valid level, and a file whose root and whose section "logging", if it has one, are mappings,
-- the level in it, if it has one, being a string: if there is no error, the file gives that level, while each other section, and each other entry of
-- "logging", is as it was; an error is one of the writing, and leaves the file as it was.
pub update_log_level-Outcome :
    (level : Text) (l : Level) (f : File) (root : Node)
    → parse_level level ≡ some l
    → f.tree ≡ ok root
    → IsMapping root
    → IsLogged root
    → Outcome level root f (update_log_level level f).0 (update_log_level level f).1
update_log_level-Outcome level l f (node mapping_node tag v c ns) valid t m s =
    let root = node mapping_node tag v c ns in
    let u = update_tree-Updated level tag v c ns m.pairs s in
    rw (update_log_level-eq level l f root valid t refl)
      (elim (Bool-cases (update_tree level root).1) [
        | inl changed ↦ rw changed (written-Outcome level f root (update_tree level root).0 u)
        | inr same ↦
            rw same (root, t, subst (Updated level root) (update_tree_same level tag v c ns same) u)
      ])
update_log_level-Outcome level l f root valid t m s = cc (m.kind)

lost_section :
    (root new old : Node)
    → is_mapping root ≡ true
    → find_value (codes "logging") (content_of root) ≡ some old
    → is_mapping new ≡ false
    → level_of (set_content (replace_value (codes "logging") new (content_of root)) root) ≡ none
unfolding get level_of
lost_section (node k tag v c ns) new old m h s =
    rw (level_of, m, find_value-replace_value_self (codes "logging") old new ns h, get, s) refl

-- Where the section "logging" is a null, as an empty section is: the change reports no error if the
-- file can be written, and the file still gives no level.
pub update_log_level_lost :
    (level : Text) (l : Level) (f : File) (root : Node) (v c : Text)
    → parse_level level ≡ some l
    → f.tree ≡ ok root
    → is_mapping root ≡ true
    → get (codes "logging") root ≡ some (node scalar_node (codes "!!null") v c nil)
    → f.write_error ≡ none
    → ((update_log_level level f).0 ≡ none)
      × ((root' : Node) × ((update_log_level level f).1.tree ≡ ok root') × (level_of root' ≡ none))
unfolding update_tree update_level_in_config find_value get
update_log_level_lost level l f root v c valid t m h w =
    let here : find_value (codes "logging") (content_of root)
        ≡ some (node scalar_node (codes "!!null") v c nil) =
      rw (get, m) at h in
    let new = update_level_in_config level (node scalar_node (codes "!!null") v c nil) in
    let root' = set_content (replace_value (codes "logging") new.0 (content_of root)) root in
    let e : update_tree level root ≡ (root', true) = rw (update_tree, here) refl in
    rw (update_log_level-eq level l f root valid t m, e, w)
      (refl, (root', refl, lost_section root new.0 _ m here refl))
