-- ===== src/Mongo/Filter/Meaning.antt =====
-- What MongoDB answers to a filter: the meaning of a query on documents whose fields are texts.
use datamaster.Prelude.{
  Bool, true, false, not, ◌&&◌, ◌||◌, Option, none, some, List, [], ◌∷◌, String, String_discrete,
  holds,
}
use datamaster.Protection.Version.{Value, one, many}
use datamaster.Mongo.Filter.{
  Condition, nothing, plain, only_eq, only_in, other, Filter, filter, Branches, absent, end, branch,
}

abbrev pub same_texts : List String → List String → Bool
same_texts [] [] = true
same_texts (t ∷ texts) (u ∷ others) = holds (String_discrete t u) && same_texts texts others
same_texts _ _ = false

abbrev pub holds_text : String → List String → Bool
holds_text text [] = false
holds_text text (t ∷ texts) = holds (String_discrete t text) || holds_text text texts

-- Whether a stored value is the one asked for; a text asked for may be an element of an array.
abbrev pub equals : Value → Value → Bool
equals (one stored) (one asked) = holds (String_discrete stored asked)
equals (many stored) (one asked) = holds_text asked stored
equals (one stored) (many asked) = false
equals (many stored) (many asked) = same_texts stored asked

abbrev pub is_one_of : Value → List Value → Bool
is_one_of stored [] = false
is_one_of stored (asked ∷ others) = equals stored asked || is_one_of stored others

-- A document as the values of its paths.
abbrev pub Stored : Type 0
Stored = String → Option Value

-- `operator` is the meaning of what is no equality.
module _ (operator : String → Option Value → Bool) where
  abbrev pub meets : Condition → Option Value → Bool
  meets nothing none = true
  meets nothing (some stored) = false
  meets (plain asked) none = false
  meets (plain asked) (some stored) = equals stored asked
  meets (only_eq asked) none = false
  meets (only_eq asked) (some stored) = equals stored asked
  meets (only_in asked) none = false
  meets (only_in asked) (some stored) = is_one_of stored asked
  meets (other text) stored = operator text stored

  abbrev pub meets_all : List (String × Condition) → Stored → Bool
  meets_all [] doc = true
  meets_all ((name, condition) ∷ fields) doc = meets condition (doc name) && meets_all fields doc

  unfoldable mutual
    pub matches : Filter → Stored → Bool
    matches (filter ors ands nors fields) doc =
        any_matches true ors doc
        && (all_match ands doc && (not (any_matches false nors doc) && meets_all fields doc))

    -- `$or` without branches is no condition if it is absent.
    pub any_matches : Bool → Branches → Stored → Bool
    any_matches without absent doc = without
    any_matches without end doc = false
    any_matches without (branch f branches) doc = matches f doc || any_matches false branches doc

    pub all_match : Branches → Stored → Bool
    all_match absent doc = true
    all_match end doc = true
    all_match (branch f branches) doc = matches f doc && all_match branches doc
