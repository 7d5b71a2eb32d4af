-- ===== src/Plugin/SetFile/Mounted.antt =====
-- What the Job's `--set-file` arguments refer to: from reading the files to mounting the ConfigMap.
use mayastor_extensions.Prelude.{
  ℕ, ◌+◌, ◌<◌, ◌≡◌, refl, subst, String, some, List, [], ◌∷◌, arith, str_eq, eq_iff, eq_refl, All,
  if◌then◌else◌, Bool-cases, inl, inr, ◌⊎◌,
}
use mayastor_extensions.Effect.Hoare.{
  Hoare, Hoare-bind, Hoare-frame, Hoare-pure, Hoare-ok_or, Hoare-request, Hoare-weaken, Post,
}
use mayastor_extensions.Plugin.Env.{Env, Trace, read_file, good}
use mayastor_extensions.Plugin.Objects.{join}
use mayastor_extensions.Plugin.Text.{split, to_string, to_string_inj}
use mayastor_extensions.Plugin.Task.{Outcome, done, ◌>>=◌}
use mayastor_extensions.Plugin.SetFile.{
  Map, lookup, insert, two_parts, key_and_path, read_to_string, config_map_loop,
  create_config_map_data, mounted, set_file_loop, create_helm_set_file_args,
}

lookup-insert :
    (k j v : String) (m : Map)
    → lookup j (insert k v m) ≡ (if str_eq k j then some v else lookup j m)
lookup-insert k j v [] = refl
lookup-insert k j v ((i, w) ∷ m) =
    ground (arith, eq_iff k j, eq_iff i k, eq_iff i j, lookup-insert k j v m)

-- The content was read from the file.
abbrev WasRead : String → String → Trace → Type 0
WasRead path content [] = ⊥
WasRead path content (call ∷ t) = (call ≡ read_file path (good content)) ⊎ WasRead path content t

-- Under the index `i` of a path, one of the numbers below `n`, the data hold what was read from it.
record Held (n : ℕ) (entries : Map) (t : Trace) (path i : String) : Type 0 where
  number : ℕ
  content : String
  below : number < n
  named : i ≡ to_string number
  held : lookup i entries ≡ some content
  was_read : WasRead path content t

record Inv (n : ℕ) (entries map : Map) (t : Trace) : Type 0 where
  at : (path i : String) → lookup path map ≡ some i → Held n entries t path i

Inv-insert :
    (n : ℕ) (entries map : Map) (t : Trace) (path content : String)
    → Inv n entries map t
    → Inv
        (n + 1)
        (insert (to_string n) content entries)
        (insert path (to_string n) map)
        (read_file path (good content) ∷ t)
Inv-insert n entries map t path content inv = record {
  at = λ p i e. elim (Bool-cases (str_eq path p)) [
    | inl same ↦ record {
      number = n;
      content = content;
      below = omega arith;
      named = ground (arith, lookup-insert path p (to_string n) map, e, same);
      held = ground (
        arith,
        lookup-insert path p (to_string n) map,
        e,
        same,
        lookup-insert (to_string n) i content entries,
        eq_iff (to_string n) i,
      );
      was_read = inl (ground (arith, eq_iff path p, same));
    }
    | inr other ↦
        let h = inv.at p i (ground (arith, lookup-insert path p (to_string n) map, e, other)) in
        record {
          number = h.number;
          content = h.content;
          below = omega (arith, h.below);
          named = h.named;
          held = ground (
            arith,
            h.held,
            h.named,
            h.below,
            lookup-insert (to_string n) i content entries,
            eq_iff (to_string n) i,
            to_string_inj n h.number,
          );
          was_read = inr h.was_read;
        }
  ];
}

-- The text is a key and a path, and the path has an index.
record Indexed (map : Map) (file : String) : Type 0 where
  key : String
  path : String
  index : String
  parts : two_parts (split 61 file) ≡ some (key, path)
  indexed : lookup path map ≡ some index

-- What the loop leaves: all files indexed, and the paths that were there before too.
record Filled (files : List String) (before : Map) (entries map : Map) (t : Trace) : Type 0 where
  count : ℕ
  inv : Inv count entries map t
  files_indexed : All (Indexed map) files
  kept : (path i : String) → lookup path before ≡ some i → (j : String) × (lookup path map ≡ some j)

kept-insert :
    (path p i v : String) (map : Map)
    → lookup p map ≡ some i
    → (j : String) × (lookup p (insert path v map) ≡ some j)
kept-insert path p i v map e = elim (Bool-cases (str_eq path p)) [
  | inl same ↦ (v, ground (arith, lookup-insert path p v map, same))
  | inr other ↦ (i, ground (arith, lookup-insert path p v map, other, e))
]

Filled-more :
    (file : String) (files : List String) (parts : String × String) (index : String)
    (before entries map : Map) (t : Trace)
    → two_parts (split 61 file) ≡ some parts
    → Filled files (insert parts.1 index before) entries map t
    → Filled (file ∷ files) before entries map t
Filled-more file files parts index before entries map t e f =
    let own =
      f.kept parts.1 index
        (ground (arith, lookup-insert parts.1 parts.1 index before, eq_refl parts.1)) in
    record {
      count = f.count;
      inv = f.inv;
      files_indexed = (
        record { key = parts.0; path = parts.1; index = own.0; parts = e; indexed = own.1 },
        f.files_indexed,
      );
      kept = λ p i h. let more = kept-insert parts.1 p i index before h in f.kept p more.0 more.1;
    }

module _ (env : Env) where
  config_map_loop-Filled :
      (files : List String) (index : ℕ) (entries map : Map)
      → Hoare env
          (λ t. Inv index entries map t)
          (config_map_loop files index entries map)
          (λ r. Filled files map r.0 r.1)
          (λ _. Unit {0})
  unfolding config_map_loop key_and_path read_to_string
  config_map_loop-Filled [] index entries map =
      Hoare-pure (entries, map)
        (λ t inv. record { count = index; inv = inv; files_indexed = tt; kept = λ p i e. (i, e) })
  config_map_loop-Filled (file ∷ files) index entries map =
      Hoare-bind {Q = λ parts t. (two_parts (split 61 file) ≡ some parts) × Inv index entries map t}
        _ _ (Hoare-ok_or (two_parts (split 61 file)) _ (λ t parts e inv. (e, inv)) (λ t inv. tt))
        λ parts.
          Hoare-bind
            {Q = λ content t.
              (two_parts (split 61 file) ≡ some parts)
              × Inv (index + 1) (insert (to_string index) content entries)
                  (insert parts.1 (to_string index) map) t}
            _ _
            (Hoare-request _ _ _
              (λ t content h. (h.0, Inv-insert index entries map t parts.1 content h.1))
              (λ t s h. tt))
            λ content.
              Hoare-weaken (λ t h. h)
                (Hoare-frame (
                  config_map_loop-Filled files (index + 1)
                    (insert (to_string index) content entries)
                    (insert parts.1 (to_string index) map)))
                (λ r t h. Filled-more file files parts (to_string index) map r.0 r.1 t h.0 h.1)

-- The argument sets the key from a file of the mounted map, which holds what was read from the path.
pub record IsMounted (entries : Map) (t : Trace) (file arg : String) : Type 0 where
  pub key : String
  pub path : String
  pub index : String
  pub content : String
  pub parts : two_parts (split 61 file) ≡ some (key, path)
  pub is_arg : arg ≡ mounted key index
  pub held : lookup index entries ≡ some content
  pub was_read : WasRead path content t

abbrev pub AllMounted : Map → Trace → List String → List String → Type 0
AllMounted entries t [] [] = Unit
AllMounted entries t [] (arg ∷ args) = ⊥
AllMounted entries t (file ∷ files) [] = ⊥
AllMounted entries t (file ∷ files) (arg ∷ args) =
    IsMounted entries t file arg × AllMounted entries t files args

module _ (env : Env) (entries map : Map) (t : Trace) (n : ℕ) (inv : Inv n entries map t) where
  set_file_loop-mounted :
      (files : List String) (t' : Trace)
      → All (Indexed map) files
      → (args : List String) × (set_file_loop (some map) files env t' ≡ (done args, t'))
        × AllMounted entries t files args
  unfolding set_file_loop key_and_path ◌>>=◌
  set_file_loop-mounted [] t' h = ([], refl, tt)
  set_file_loop-mounted (file ∷ files) t' (f, fs) =
      let (args, runs, all) = set_file_loop-mounted files t' fs in
      let h = inv.at f.path f.index f.indexed in
      (
        mounted f.key f.index ∷ args,
        rw (f.parts, f.indexed, runs) refl,
        (
          record {
            key = f.key;
            path = f.path;
            index = f.index;
            content = h.content;
            parts = f.parts;
            is_arg = refl;
            held = h.held;
            was_read = h.was_read;
          },
          all,
        ),
      )

-- If the files that the user names could be read into the ConfigMap's data, then the Job's arguments
-- can be made from the numbers that they got, with no further call; there is one argument for each
-- file, in order: it sets the file's key from the mounted map, which has under that number a text that
-- was read from the file's path.
pub set_file-mounted :
    (env : Env) (file : String) (files : List String) (t₀ t t' : Trace) (entries map : Map)
    → create_config_map_data (file ∷ files) env t₀ ≡ (done (entries, map), t)
    → (args : List String) × (create_helm_set_file_args (file ∷ files) (some map) env t'
        ≡ (done (some (join "," args)), t'))
      × AllMounted entries t (file ∷ files) args
unfolding create_config_map_data create_helm_set_file_args ◌>>=◌
set_file-mounted env file files t₀ t t' entries map e =
    let f = filled in
    let (args, runs, all) =
      set_file_loop-mounted env entries map t f.count f.inv (file ∷ files) t' f.files_indexed in
    (args, rw runs refl, all)
  where
    start : Inv 1 [] [] t₀
    start = record { at = λ p i h. absurd (cc h) }

    filled : Filled (file ∷ files) [] entries map t
    filled =
        let p = (config_map_loop-Filled env (file ∷ files) 1 [] []).at t₀ start in
        let run = config_map_loop (file ∷ files) 1 [] [] env t₀ in
        subst
          (λ (r : Outcome (Map × Map) × Trace).
            Post (λ m. Filled (file ∷ files) [] m.0 m.1) (λ _. Unit {0}) r.0 r.1)
          e p
