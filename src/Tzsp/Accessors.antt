-- ===== src/Tzsp/Accessors.antt =====
-- The accessors of a packet's tags.
use tzsp_server.Prelude.{
  ℕ, ◌≡◌, ◌≢◌, refl, ap, Option, none, some, List, [], ◌∷◌, ◌++◌, All, ◌==◌, ==_iff, Bool-cases,
  inl, inr, arith,
}
use tzsp_server.Tzsp.{Tag, find_tag}

-- `tag` is the first tag of type `t`.
pub record IsFirst (t : ℕ) (tags : List Tag) (tag : Tag) : Type 0 where
  pub before : List Tag
  pub after : List Tag
  pub split : tags ≡ before ++ tag ∷ after
  pub others_before : All (λ other. other.typ ≢ t) before
  pub has_type : tag.typ ≡ t

-- What a search for a tag gives.
pub data Search (t : ℕ) (tags : List Tag) (r : Option Tag) : Type 0 where
  found : (tag : Tag) → IsFirst t tags tag → r ≡ some tag → Search t tags r
  missing : All (λ other. other.typ ≢ t) tags → r ≡ none → Search t tags r

-- `GetTag` finds the first tag of the type, and nothing exactly if no tag has the type.
pub find_tag-Search : (t : ℕ) (tags : List Tag) → Search t tags (find_tag t tags)
unfolding find_tag
find_tag-Search t [] = missing tt refl
find_tag-Search t (tag ∷ tags) = elim (Bool-cases (tag.typ == t)) [
  | inl same ↦
      found tag
        (record {
          before = [];
          after = tags;
          split = refl;
          others_before = tt;
          has_type = (==_iff tag.typ t).0 same;
        })
        (rw same refl)
  | inr other ↦
      let differs : tag.typ ≢ t = ground arith in
      elim (find_tag-Search t tags) [
        | found x first e ↦
            found x
              (record {
                before = tag ∷ first.before;
                after = first.after;
                split = ap (λ ts. tag ∷ ts) first.split;
                others_before = (differs, first.others_before);
                has_type = first.has_type;
              })
              (rw other e)
        | missing none_has e ↦ missing (differs, none_has) (rw other e)
      ]
]
