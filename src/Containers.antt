-- ===== src/Containers.antt =====
-- The environment of containers, pkg/resources/helper.go. A change through a pointer to a loop's
-- copy of a container is written back to its place in the slice, as the code does.
use verrazzano_monitoring_op.Prelude.{
  String, Option, none, some, List, [], ◌∷◌, ◌=ₜ◌, if◌then◌else◌,
}
use verrazzano_monitoring_op.Kube.{Container, EnvVar}

abbrev pub cluster_initial_master_nodes : String
cluster_initial_master_nodes = "cluster.initial_master_nodes"

find_env : List EnvVar → String → Option EnvVar
find_env [] name = none
find_env (env_var ∷ env) name = if env_var.name =ₜ name then some env_var else find_env env name

unfoldable pub get_env_var : Container → String → Option EnvVar
unfolding find_env
get_env_var container name = find_env container.env name

-- the first variable of that name is replaced, or a new one stands last
put_env : List EnvVar → EnvVar → List EnvVar
put_env [] env_var = env_var ∷ []
put_env (e ∷ env) env_var =
    if e.name =ₜ env_var.name then env_var ∷ env else e ∷ put_env env env_var

unfoldable pub set_env_var : Container → EnvVar → Container
unfolding put_env
set_env_var container env_var = record container { env = put_env container.env env_var }

-- the closure `getContainer`
unfoldable pub get_container : List Container → String → Option Container
get_container [] name = none
get_container (c ∷ cs) name = if c.name =ₜ name then some c else get_container cs name

-- `expected[idx] = c` at the index that `getContainer` found
unfoldable pub set_container : List Container → String → Container → List Container
set_container [] name c = []
set_container (d ∷ ds) name c = if d.name =ₜ name then c ∷ ds else d ∷ set_container ds name c

-- the closure `getAndSetVar`
set_if_there : Container → Option EnvVar → Container
unfolding set_env_var
set_if_there current none = current
set_if_there current (some env_var) = set_env_var current env_var

unfoldable pub copy_vars : Container → Container → Container
unfolding set_if_there get_env_var
copy_vars current existing =
    set_if_there (set_if_there current (get_env_var existing cluster_initial_master_nodes))
      (get_env_var existing "node.roles")

copy_into : List Container → String → Option Container → Option Container → List Container
unfolding copy_vars set_container
copy_into expected name none existing = expected
copy_into expected name (some current) none = expected
copy_into expected name (some current) (some existing) =
    set_container expected name (copy_vars current existing)

unfoldable pub copy_immutable_env_vars : List Container → List Container → String → List Container
unfolding copy_into get_container
copy_immutable_env_vars expected existing name =
    copy_into expected name (get_container expected name) (get_container existing name)
