-- ===== src/Plugin/Apply/Ends.antt =====
-- Every part of the plugin's commands ends, and waits only where it polls for the event.
use mayastor_extensions.Prelude.{ℕ, ◌+◌, ◌≤◌, String, Option, List, [], ◌∷◌, arith}
use mayastor_extensions.Effect.Ends
use mayastor_extensions.Effect.Ends.{Ends-bind, Ends-fail, Ends-if, Ends-pure, Ends-reads}
use mayastor_extensions.Plugin.Error.{Error}
use mayastor_extensions.Plugin.Env.{Call, Deployment, Env, Reply, Trace}
use mayastor_extensions.Plugin.SetFile.{
  Map, config_map_loop, create_config_map_data, create_helm_set_file_args, insert, key_and_path,
  read_to_string, set_file_loop,
}
use mayastor_extensions.Plugin.Text.{to_string}
use mayastor_extensions.Plugin.Deployment.{
  get_deployment_for_rest, get_release_name, image_properties, registry_in,
}
use mayastor_extensions.Plugin.Task.{
  M, client, fail, lift, note, ok_or, pure, reads, request, ◌>>=◌,
}

-- `tokio::time::sleep`, in seconds
abbrev pub seconds : Call → ℕ
seconds (Call.sleep n) = n
seconds _ = 0

abbrev pub slept : Trace → ℕ
slept t = Ends.total seconds t

-- Ends, having slept this long at most.
abbrev pub EndsWithin : {A : Type 0} → ℕ → M A → Type 1
EndsWithin n m = Ends.Ends seconds n m

-- Ends without a wait.
abbrev pub Prompts : {A : Type 0} → M A → Type 1
Prompts m = EndsWithin 0 m

pub bind :
    {A B : Type 0} {m : M A} {f : A → M B}
    → Prompts m
    → ((a : A) → Prompts (f a))
    → Prompts (m >>= f)
bind {m = m} {f = f} h hf = Ends-bind seconds 0 0 m f h hf

pub note-Prompts : (c : Call) → seconds c ≤ 0 → Prompts (note c)
unfolding note
note-Prompts c h = record {
  at = λ env t. record { returns = tt; bounded = omega (arith, h); grows = λ I l i. l c t i };
}

pub ask-Prompts :
    {A : Type 0} (ask : Env → Trace → Reply A) (log : Reply A → Call) (e : String → Error)
    → ((r : Reply A) → seconds (log r) ≤ 0)
    → Prompts (request ask log e)
ask-Prompts ask log e h = Ends.Ends-request seconds ask log e 0 h

pub ok_or-Prompts : {A : Type 0} (o : Option A) (e : Error) → Prompts (ok_or o e)
ok_or-Prompts o e = Ends.Ends-ok_or seconds 0 o e

pub lift-Prompts : {A : Type 0} (r : Env → Reply A) (e : String → Error) → Prompts (lift r e)
lift-Prompts r e = Ends.Ends-lift seconds 0 r e

pub reads-Prompts : {A : Type 0} (f : Env → A) → Prompts (reads f)
reads-Prompts f = Ends-reads seconds 0 f

pub pure-Prompts : {A : Type 0} (a : A) → Prompts (pure a)
pure-Prompts a = Ends-pure seconds 0 a

pub fail-Prompts : {A : Type 0} (e : Error) → Prompts {A = A} (fail e)
fail-Prompts e = Ends-fail seconds 0 e

pub client-Prompts : (e : String → Error) → Prompts (client e)
unfolding client
client-Prompts e = ask-Prompts _ _ e (λ r. omega arith)

pub deployment-Prompts : (ns : String) → Prompts (get_deployment_for_rest ns)
unfolding get_deployment_for_rest
deployment-Prompts ns =
    bind (client-Prompts _)
      λ _. bind (ask-Prompts _ _ _ (λ r. omega arith)) λ list. ok_or-Prompts _ _

pub release_name-Prompts : (ns : String) → Prompts (get_release_name ns)
unfolding get_release_name
release_name-Prompts ns =
    bind (deployment-Prompts ns)
      λ d. bind (reads-Prompts _) λ key. bind (reads-Prompts _) λ default. pure-Prompts _

registry-Prompts : (sections : List String) → Prompts (registry_in sections)
unfolding registry_in
registry-Prompts [] = fail-Prompts _
registry-Prompts (a ∷ []) = fail-Prompts _
registry-Prompts (a ∷ b ∷ more) = pure-Prompts _

pub image-Prompts : (d : Deployment) → Prompts (image_properties d)
unfolding image_properties
image-Prompts d = bind (ok_or-Prompts d.spec _) λ spec.
    bind (ok_or-Prompts spec.template _) λ pod_spec. bind (ok_or-Prompts _ _) λ container.
      bind (ok_or-Prompts container.image _)
        λ image. bind (registry-Prompts _) λ registry. pure-Prompts _

key_and_path-Prompts : (file : String) → Prompts (key_and_path file)
unfolding key_and_path
key_and_path-Prompts file = ok_or-Prompts _ _

config_map_loop-Prompts :
    (files : List String) (index : ℕ) (a b : Map) → Prompts (config_map_loop files index a b)
unfolding config_map_loop read_to_string
config_map_loop-Prompts [] index a b = pure-Prompts _
config_map_loop-Prompts (file ∷ files) index a b = bind (key_and_path-Prompts file) λ parts.
    bind (ask-Prompts _ _ _ (λ r. omega arith)) λ content.
      config_map_loop-Prompts files (index + 1) (insert (to_string index) content a)
        (insert parts.1 (to_string index) b)

pub config_map_data-Prompts : (files : List String) → Prompts (create_config_map_data files)
unfolding create_config_map_data
config_map_data-Prompts files = config_map_loop-Prompts files 1 [] []

set_file_loop-Prompts : (map : Option Map) (files : List String) → Prompts (set_file_loop map files)
unfolding set_file_loop
set_file_loop-Prompts map [] = pure-Prompts _
set_file_loop-Prompts map (file ∷ files) = bind (key_and_path-Prompts file) λ parts.
    bind (ok_or-Prompts _ _) λ index. bind (set_file_loop-Prompts map files) λ rest. pure-Prompts _

pub set_file_args-Prompts :
    (files : List String) (map : Option Map) → Prompts (create_helm_set_file_args files map)
unfolding create_helm_set_file_args
set_file_args-Prompts [] map = pure-Prompts _
set_file_args-Prompts (file ∷ files) map =
    bind (set_file_loop-Prompts map (file ∷ files)) λ args. pure-Prompts _
