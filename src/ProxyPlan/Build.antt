-- ===== src/ProxyPlan/Build.antt =====
-- proxy_plan.py: the plan of a profile's section, whatever shape the section has.
use Prim.Native.String.{◌++◌ as text_append}
use engineering_flow_platfor.Base.{
  ℕ, zero, suc, ◌+◌, String, Bool, not, ◌&&◌, ◌||◌, Option, none, some, List, [], ◌∷◌, ◌++◌, map,
  if◌then◌else◌, ◌==◌, nat_eq, string_eq, pair_eq, length, contains, is_nil, is_empty, strip, Dict,
  insert,
}
use engineering_flow_platfor.Base.Value.{
  Value, null, bool, str, list, dict, Items, nil, cons, Fields, end, field, as_dict, get,
}
use engineering_flow_platfor.ProxyPlan.Library.{Library}
use engineering_flow_platfor.ProxyPlan.Texts.{joined, is_name_like}
use engineering_flow_platfor.ProxyPlan.Entries.{
  ProxyEntry, clean, env_token_of, secret, flag, proxy_url_env_keys, no_proxy_env_keys,
  url_with_credentials, no_proxy_text, credential_env_names, address,
}
use engineering_flow_platfor.TaskStore.Listing.{text_leb}

abbrev pub none_words : List String
none_words = "none" ∷ "direct" ∷ "off" ∷ []

-- an entry of the normalised section has no token yet
pub record Section : Type 0 where
  pub enabled : Bool
  pub default : String
  pub proxies : List ProxyEntry
  pub assignments : Dict String String

pub record ProxyPlan : Type 0 where
  pub enabled : Bool
  pub entries : List ProxyEntry
  pub default : Option ProxyEntry
  pub assignments : Dict String String
  pub warnings : List String

-- the next name of `unique`: the token, then with 2, 3, … behind it
unfoldable pub candidate : (ℕ → String) → String → ℕ → String
candidate text_of_number token zero = token
candidate text_of_number token (suc n) = joined (token ∷ "_" ∷ text_of_number (n + 2) ∷ [])

-- `while unique in tokens`, from candidate `n` on, at most so often
unfoldable pub unique_from : (ℕ → String) → String → List String → ℕ → ℕ → String
unfolding candidate
unique_from text_of_number token tokens zero n = candidate text_of_number token n
unique_from text_of_number token tokens (suc fuel) n =
    let later = unique_from text_of_number token tokens fuel (suc n) in
    if contains (candidate text_of_number token n) tokens
    then later
    else candidate text_of_number token n

-- as many turns as there are tokens are enough: `ProxyPlan.Tokens`
unfoldable pub unique_token : (ℕ → String) → String → List String → String
unfolding unique_from
unique_token text_of_number token tokens = unique_from text_of_number token tokens (length tokens) 0

-- the first entry with a name
unfoldable pub find_entry : String → List ProxyEntry → Option ProxyEntry
find_entry name [] = none
find_entry name (e ∷ entries) = if e.name == name then some e else find_entry name entries

abbrev pub names_of : List ProxyEntry → List String
names_of entries = map (λ e. e.name) entries

abbrev pub first_of {ℓ} : {A : Type ℓ} → List A → Option A
first_of [] = none
first_of (a ∷ xs) = some a

abbrev pub name_or_empty : Option ProxyEntry → String
name_or_empty none = ""
name_or_empty (some e) = e.name

-- `sorted(assignments.items())`, the keys being different
unfoldable pub insert_sorted : String × String → Dict String String → Dict String String
insert_sorted p [] = p ∷ []
insert_sorted p (q ∷ d) =
    let rest = insert_sorted p d in if text_leb p.0 q.0 then p ∷ q ∷ d else q ∷ rest

unfoldable pub sorted_items : Dict String String → Dict String String
unfolding insert_sorted
sorted_items [] = []
sorted_items (p ∷ d) = insert_sorted p (sorted_items d)

abbrev pub shown_default : Option ProxyEntry → Value
shown_default none = null
shown_default (some e) = str e.name

module _ (l : Library) where
  unfoldable pub no_proxy_of : Fields → String
  no_proxy_of item =
      if is_empty (clean l (get "no_proxy" item))
      then clean l (get "noProxy" item)
      else clean l (get "no_proxy" item)

  abbrev pub new_entry : String → Fields → ProxyEntry
  new_entry name item = record {
    name = name;
    url = clean l (get "url" item);
    username = secret l (get "username" item);
    password = secret l (get "password" item);
    no_proxy = no_proxy_of item;
    env_token = "";
  }

  abbrev pub name_of : ℕ → Fields → String
  name_of index item =
      if is_empty (clean l (get "name" item))
      then text_append "proxy-" (l.text_of_number index)
      else clean l (get "name" item)

  -- the entries, from this position on and with the names that were seen
  unfoldable pub read_entries : ℕ → List String → Items → List ProxyEntry
  unfolding no_proxy_of
  read_entries index seen nil = []
  read_entries index seen (cons (dict item) items) =
      let skipped = read_entries (index + 1) seen items in
      let taken = read_entries (index + 1) (name_of index item ∷ seen) items in
      if is_empty (clean l (get "url" item)) || contains (name_of index item) seen
      then skipped
      else new_entry (name_of index item) item ∷ taken
  read_entries index seen (cons _ items) = read_entries (index + 1) seen items

  abbrev pub items_of : Value → Items
  items_of (list items) = items
  items_of _ = nil

  -- the flat keys of an older profile
  unfoldable pub section_entries : Fields → List ProxyEntry
  unfolding read_entries
  section_entries section =
      let entries = read_entries 1 [] (items_of (get "proxies" section)) in
      if is_nil entries && not (is_empty (clean l (get "url" section)))
      then new_entry "default" section ∷ []
      else entries

  unfoldable pub read_assignments : Fields → Dict String String → Dict String String
  read_assignments end d = d
  read_assignments (field key value fields) d =
      read_assignments fields
        (if is_empty (strip key) then d else insert (strip key) (clean l value) d)

  unfoldable pub normalize_proxy_section : Value → Section
  unfolding section_entries read_assignments
  normalize_proxy_section raw =
      let section = as_dict raw in
      let entries = section_entries section in
      let default = clean l (get "default" section) in
      record {
        enabled = flag l (get "enabled" section);
        default =
            if contains default (names_of entries)
            then default
            else name_or_empty (first_of entries);
        proxies = entries;
        assignments = read_assignments (as_dict (get "assignments" section)) [];
      }

  -- the entries with their tokens, after these tokens
  unfoldable pub with_tokens : List String → List ProxyEntry → List ProxyEntry
  unfolding unique_token
  with_tokens tokens [] = []
  with_tokens tokens (e ∷ entries) =
      let token = unique_token l.text_of_number (env_token_of l e.name) tokens in
      record e { env_token = token } ∷ with_tokens (token ∷ tokens) entries

  unfoldable pub mentionable : String → String
  mentionable value = if is_name_like value then l.repr (str value) else "an unlisted value"

  unfoldable pub assignment_warnings : List String → Dict String String → List String
  unfolding mentionable
  assignment_warnings names [] = []
  assignment_warnings names ((connector, value) ∷ d) =
      let rest = assignment_warnings names d in
      if is_empty value || contains (l.lower value) none_words || contains value names
      then rest
      else joined (
          connector
          ∷ " is assigned the proxy "
          ∷ mentionable value
          ∷ ", which the Proxy connector does not define; it follows the environment"
          ∷ [])
        ∷ rest

  unfoldable pub default_warnings : Value → List ProxyEntry → List String
  default_warnings raw entries =
      let default = clean l (get "default" (as_dict raw)) in
      if is_empty default || contains default (names_of entries) then [] else elim entries [
        | [] ↦ []
        | e ∷ others ↦
            joined (
              "the default proxy "
              ∷ mentionable default
              ∷ " is not defined; "
              ∷ l.repr (str e.name)
              ∷ " is the default"
              ∷ [])
            ∷ []
      ]

  abbrev pub entry_or_first : String → List ProxyEntry → Option ProxyEntry
  entry_or_first name entries = elim (find_entry name entries) [
    | some e ↦ some e
    | none ↦ first_of entries
  ]

  unfoldable pub build_proxy_plan : Value → ProxyPlan
  unfolding normalize_proxy_section with_tokens assignment_warnings default_warnings
  build_proxy_plan raw =
      let section = normalize_proxy_section raw in
      let entries = with_tokens [] section.proxies in
      record {
        enabled = section.enabled;
        entries = entries;
        default = entry_or_first section.default entries;
        assignments = section.assignments;
        warnings =
            assignment_warnings (names_of entries) (sorted_items section.assignments)
            ++ default_warnings raw entries;
      }

  abbrev pub set_all : List String → String → Dict String String → Dict String String
  set_all [] v d = d
  set_all (k ∷ ks) v d = set_all ks v (insert k v d)

  unfoldable pub environment : String → ProxyPlan → Dict String String
  environment default_no_proxy plan = if not plan.enabled then [] else elim plan.default [
    | none ↦ []
    | some e ↦
        set_all no_proxy_env_keys (no_proxy_text l default_no_proxy e)
          (set_all proxy_url_env_keys (url_with_credentials l e) [])
  ]

  abbrev pub set_if_given : String → String → Dict String String → Dict String String
  set_if_given k v d = if is_empty v then d else insert k v d

  unfoldable pub add_credentials : List ProxyEntry → Dict String String → Dict String String
  add_credentials [] d = d
  add_credentials (e ∷ entries) d =
      let keys = credential_env_names l e in
      add_credentials entries (set_if_given keys.1 e.password (set_if_given keys.0 e.username d))

  unfoldable pub credential_environment : ProxyPlan → Dict String String
  unfolding add_credentials
  credential_environment plan = if plan.enabled then add_credentials plan.entries [] else []

  abbrev pub shown_entry : ProxyEntry → Value
  shown_entry e = dict (field "name" (str e.name) (field "address" (str (address l e)) end))

  abbrev pub shown_entries : List ProxyEntry → Items
  shown_entries [] = nil
  shown_entries (e ∷ entries) = cons (shown_entry e) (shown_entries entries)

  abbrev pub shown_assignments : Dict String String → Fields
  shown_assignments [] = end
  shown_assignments ((key, value) ∷ d) =
      field key (str (if is_name_like value || is_empty value then value else "unlisted"))
        (shown_assignments d)

  abbrev pub shown_texts : List String → Items
  shown_texts [] = nil
  shown_texts (s ∷ ss) = cons (str s) (shown_texts ss)

  unfoldable pub summary : ProxyPlan → Fields
  summary plan = field "enabled" (bool plan.enabled) (
      field "default" (shown_default plan.default) (
        field "proxies" (list (shown_entries plan.entries)) (
          field "assignments" (dict (shown_assignments plan.assignments))
            (field "warnings" (list (shown_texts plan.warnings)) end))))
