-- ===== src/Local/Asked.antt =====
-- Which parameters an answer of the agent is about: those of the request, netcwmp_xo/libcwmp/src/cwmp_com.c
use netcwmp_xo.Base.{◌≡◌, refl, sym, subst, ap, ◌∙◌, Option, none, some, List, [], ◌∷◌, codes}
use netcwmp_xo.Param.{Name}
use netcwmp_xo.Header.{same_header}
use netcwmp_xo.Local.{
  Json, no_item, item, find_named, Commands, list_entry, Store, text_below, get_entries,
  set_entries, value_entry, status_entry, put_before,
}

abbrev item_of : Option Json → Json
item_of none = no_item
item_of (some j) = j

-- The names in a list
unfoldable pub listed_names : Json → List Name
listed_names no_item = []
listed_names (item name value c next) = elim (text_below (codes "paraname") c) [
  | none ↦ listed_names next
  | some p ↦ p ∷ listed_names next
]

listed_names-list_entry :
    (p : Name) (c next : Json) → listed_names (list_entry p c next) ≡ p ∷ listed_names next
unfolding listed_names find_named same_header
listed_names-list_entry p c next = refl

listed_names-some :
    (name value : Option Name) (c next : Json) (p : Name)
    → text_below (codes "paraname") c ≡ some p
    → listed_names (item name value c next) ≡ p ∷ listed_names next
unfolding listed_names
listed_names-some name value c next p h = rw (listed_names, h) refl

listed_names-none :
    (name value : Option Name) (c next : Json)
    → text_below (codes "paraname") c ≡ none
    → listed_names (item name value c next) ≡ listed_names next
unfolding listed_names
listed_names-none name value c next h = rw (listed_names, h) refl

module _ {S : Type 0} (cmds : Commands) (store : Store S) where
  get_entries-item :
      (name value : Option Name) (c next : Json) (s : S) (t : Option Name)
      → text_below (codes "paraname") c ≡ t
      → ((r : S) → listed_names (get_entries cmds store next r).0 ≡ listed_names next)
      → listed_names (get_entries cmds store (item name value c next) s).0
        ≡ listed_names (item name value c next)
  unfolding get_entries
  get_entries-item name value c next s none h ih =
      rw (get_entries, h, listed_names-none name value c next h) (ih s)
  get_entries-item name value c next s (some p) h ih =
      let e = value_entry cmds store p (find_named (codes "paravalue") c) s in
      rw (get_entries, h, listed_names-some name value c next p h)
        (listed_names-list_entry p e.0 (get_entries cmds store next e.1).0
          ∙ ap (λ r. p ∷ r) (ih e.1))

  -- The names of an answer are those of the request that have one, in their order.
  pub listed_names-get_entries :
      (l : Json) (s : S) → listed_names (get_entries cmds store l s).0 ≡ listed_names l
  unfolding get_entries
  listed_names-get_entries no_item s = refl
  listed_names-get_entries (item name value c next) s =
      get_entries-item name value c next s (text_below (codes "paraname") c) refl
        (listed_names-get_entries next)

  put_before-listed_names :
      (p : Name) (j next : Json) (r : Option Json × S) (list : Json)
      → ((rest : Json) → r.0 ≡ some rest → listed_names rest ≡ listed_names next)
      → (put_before cmds store p j r).0 ≡ some list
      → listed_names list ≡ p ∷ listed_names next
  put_before-listed_names p j next (none, s) list ih h = cc
  put_before-listed_names p j next (some rest, s) list ih h =
      subst (λ l. listed_names l ≡ p ∷ listed_names next) (ap item_of h)
        (listed_names-list_entry p j rest ∙ ap (λ r. p ∷ r) (ih rest refl))

  -- One step of the loop that sets values, for an entry with a name
  set_entries-refused :
      (name value : Option Name) (c next : Json) (s : S) (p : Name)
      → text_below (codes "paraname") c ≡ some p
      → (status_entry cmds store p (find_named (codes "paravalue") c) s).0 ≡ none
      → (set_entries cmds store (item name value c next) s).0 ≡ none
  unfolding set_entries
  set_entries-refused name value c next s p h k = rw (set_entries, h, k) refl

  set_entries-status :
      (name value : Option Name) (c next : Json) (s : S) (p : Name) (j : Json)
      → text_below (codes "paraname") c ≡ some p
      → (status_entry cmds store p (find_named (codes "paravalue") c) s).0 ≡ some j
      → set_entries cmds store (item name value c next) s
        ≡ put_before cmds store p j (
            set_entries cmds store next
              (status_entry cmds store p (find_named (codes "paravalue") c) s).1)
  unfolding set_entries
  set_entries-status name value c next s p j h k = rw (set_entries, h, k) refl

  set_entries-nameless :
      (name value : Option Name) (c next : Json) (s : S)
      → text_below (codes "paraname") c ≡ none
      → set_entries cmds store (item name value c next) s ≡ set_entries cmds store next s
  unfolding set_entries
  set_entries-nameless name value c next s h = rw (set_entries, h) refl

  named_entry :
      (name value : Option Name) (c next : Json) (s : S) (p : Name) (e : Option Json) (list : Json)
      → text_below (codes "paraname") c ≡ some p
      → (status_entry cmds store p (find_named (codes "paravalue") c) s).0 ≡ e
      → ((r : S) (rest : Json)
          → (set_entries cmds store next r).0 ≡ some rest
          → listed_names rest ≡ listed_names next)
      → (set_entries cmds store (item name value c next) s).0 ≡ some list
      → listed_names list ≡ listed_names (item name value c next)
  named_entry name value c next s p none list h k ih out =
      let refused = set_entries-refused name value c next s p h k in cc
  named_entry name value c next s p (some j) list h k ih out =
      let after = (status_entry cmds store p (find_named (codes "paravalue") c) s).1 in
      put_before-listed_names p j next (set_entries cmds store next after) list (ih after)
        (sym (ap (λ r. r.0) (set_entries-status name value c next s p j h k)) ∙ out)
      ∙ sym (listed_names-some name value c next p h)

  entry_names :
      (name value : Option Name) (c next : Json) (s : S) (t : Option Name) (list : Json)
      → text_below (codes "paraname") c ≡ t
      → ((r : S) (rest : Json)
          → (set_entries cmds store next r).0 ≡ some rest
          → listed_names rest ≡ listed_names next)
      → (set_entries cmds store (item name value c next) s).0 ≡ some list
      → listed_names list ≡ listed_names (item name value c next)
  entry_names name value c next s none list h ih out =
      ih s list (sym (ap (λ r. r.0) (set_entries-nameless name value c next s h)) ∙ out)
      ∙ sym (listed_names-none name value c next h)
  entry_names name value c next s (some p) list h ih out =
      named_entry name value c next s p
        ((status_entry cmds store p (find_named (codes "paravalue") c) s).0) list h refl ih out

  -- The same where values are set, if every entry with a `paravalue` has a value
  pub listed_names-set_entries :
      (l : Json) (s : S) (list : Json)
      → (set_entries cmds store l s).0 ≡ some list
      → listed_names list ≡ listed_names l
  unfolding set_entries
  listed_names-set_entries no_item s list h = ap listed_names (sym (ap item_of h))
  listed_names-set_entries (item name value c next) s list h =
      entry_names name value c next s (text_below (codes "paraname") c) list refl
        (listed_names-set_entries next) h
