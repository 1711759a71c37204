-- ===== src/Rules/Path/Join.antt =====
-- fieldPathString of buf/validate/internal/validation_rules.h as a join.
use protovalidate_cc.Base.{
  ◌≡◌, ◌≢◌, refl, ◌∙◌, List, [], ◌∷◌, ◌++◌, map, append_assoc, Bytes, arith,
}
use protovalidate_cc.Rules.Path.Print.{
  Text, FieldPathElement, subscript_string, append_elements, field_path_string,
}

module _ (text : Text) where
  -- an element alone
  abbrev pub element_string : FieldPathElement → Bytes
  element_string e = e.field_name ++ subscript_string text e.subscript

  -- the strings, with a dot between them
  pub join_dots : List Bytes → Bytes
  join_dots [] = []
  join_dots (s ∷ []) = s
  join_dots (s ∷ t ∷ ts) = s ++ (b'.' ∷ join_dots (t ∷ ts))

  join_dots-append :
      (r s : Bytes) (rest : List Bytes) → join_dots ((r ++ s) ∷ rest) ≡ r ++ join_dots (s ∷ rest)
  unfolding join_dots
  join_dots-append r s [] = refl
  join_dots-append r s (t ∷ ts) = append_assoc r s (b'.' ∷ join_dots (t ∷ ts))

  append_elements-join_dots :
      (result : Bytes) (path : List FieldPathElement)
      → result ≢ []
      → append_elements text result path ≡ join_dots (result ∷ map element_string path)
  unfolding append_elements join_dots
  append_elements-join_dots [] path h = absurd (h refl)
  append_elements-join_dots (c ∷ s) [] h = refl
  append_elements-join_dots (c ∷ s) (e ∷ path) h =
      append_elements-join_dots (c ∷ (s ++ b'.' ∷ []) ++ element_string e) path (λ z. ground arith)
      ∙ join_dots-append (c ∷ s ++ b'.' ∷ []) (element_string e) (map element_string path)
      ∙ append_assoc (c ∷ s) (b'.' ∷ []) (join_dots (element_string e ∷ map element_string path))

  element_string-named : (e : FieldPathElement) → e.field_name ≢ [] → element_string e ≢ []
  element_string-named e h = go e.field_name h
    where
      go : (name : Bytes) → name ≢ [] → name ++ subscript_string text e.subscript ≢ []
      go [] h' = absurd (h' refl)
      go (c ∷ name) h' = λ z. ground arith

  -- The text of a path whose first element has a name is the texts of its elements with a dot
  -- between them.
  pub field_path_string-join_dots :
      (e : FieldPathElement) (path : List FieldPathElement)
      → e.field_name ≢ []
      → field_path_string text (e ∷ path) ≡ join_dots (map element_string (e ∷ path))
  unfolding field_path_string append_elements join_dots
  field_path_string-join_dots e path h =
      append_elements-join_dots (element_string e) path (element_string-named e h)
