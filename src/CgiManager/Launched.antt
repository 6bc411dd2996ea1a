-- ===== src/CgiManager/Launched.antt =====
-- The program that the child of a prepared object runs.
use left_hook_roll.Request.State.{Request}
use left_hook_roll.CgiManager.Environment.{build_env_map, env_entry, prep_execve_arrays, prepare}
use left_hook_roll.CgiManager.State.{
  resolve_script_exec_arg, resolve_script_directory, CgiManager, free_execve_arrays, c_str,
}
use left_hook_roll.Text.{Bytes}
use left_hook_roll.CgiManager.Child.{
  fatal, back, ChildEnd, first_arg, runs, child_from, set_exec_arg, prepare_child_execution_context,
  run_child, execute_child, ChildKernel,
}
use left_hook_roll.Prelude.{
  ◌∙◌, ap, Bool, none, some, map, ℕ, Option, [], ◌∷◌, is_nil, true, if◌then◌else◌, ◌≡◌, List,
}

abbrev argv_of : Bytes → Bytes → List Bytes
argv_of interpreter arg =
    if is_nil interpreter then c_str arg ∷ [] else c_str interpreter ∷ c_str arg ∷ []

-- What the kernel says where it serves the child.
pub record ServesChild (kernel : ChildKernel) (directory : Bytes) : Type 0 where
  pub changes : kernel.chdir (c_str directory) ≡ true
  pub input : kernel.dup_stdin ≡ true
  pub output : kernel.dup_stdout ≡ true
  pub executes : kernel.execve ≡ true

context :
    (chdir : Bytes → Bool) (x : Bytes) (xs argv : List Bytes)
    → chdir (c_str (resolve_script_directory (back x xs))) ≡ true
    → prepare_child_execution_context chdir (x ∷ xs) argv
      ≡ some (
        resolve_script_directory (back x xs),
        set_exec_arg (x ∷ xs) (resolve_script_exec_arg (back x xs)) argv,
      )
unfolding prepare_child_execution_context
context chdir x xs argv h =
    ap
      (λ b.
        if b
        then some (
          resolve_script_directory (back x xs),
          set_exec_arg (x ∷ xs) (resolve_script_exec_arg (back x xs)) argv,
        )
        else none)
      h

-- The child, by its context.
child_of :
    (kernel : ChildKernel) (input : Option ℕ) (c : CgiManager) (envp : List Bytes)
    → Option (Bytes × List Bytes)
    → ChildEnd
child_of kernel input c envp o = elim o [
  | none ↦ fatal
  | some found ↦ child_from kernel input c found envp
]

child_from-served :
    (kernel : ChildKernel) (input : Option ℕ) (c : CgiManager) (directory : Bytes)
    (argv envp : List Bytes) (place : Bytes)
    → ServesChild kernel place
    → child_from kernel input c (directory, argv) envp
      ≡ runs (record {
        directory = directory;
        file = first_arg argv;
        argv = argv;
        envp = envp;
        stdin = input;
        stdout = c.pipe_write;
      })
unfolding child_from
child_from-served kernel none c directory argv envp place h = rw (h.output, h.executes)
child_from-served kernel (some fd) c directory argv envp place h =
    rw (h.input, h.output, h.executes)

-- A child that the kernel serves runs in the script's directory: the interpreter, if the location has
-- one, with the script's name as its argument, and else the script itself. It gets the environment
-- that was made for the request, its input is the request's body, and its output the pipe.
pub execute_child-prepare :
    (request : Request) (script interpreter : Bytes) (c : CgiManager) (kernel : ChildKernel)
    (input : Option ℕ)
    → ServesChild kernel (resolve_script_directory script)
    → execute_child kernel input (prepare request script interpreter c)
      ≡ runs (record {
        directory = resolve_script_directory script;
        file =
            if is_nil interpreter
            then c_str (resolve_script_exec_arg script)
            else c_str interpreter;
        argv = argv_of interpreter (resolve_script_exec_arg script);
        envp = map (λ e. c_str (env_entry e)) (build_env_map request script);
        stdin = input;
        stdout = c.pipe_write;
      })
unfolding child_of execute_child run_child prepare prep_execve_arrays free_execve_arrays
    set_exec_arg
execute_child-prepare request script [] c kernel input h =
    let d = prepare request script [] c in
    let arg = resolve_script_exec_arg script in
    let directory = resolve_script_directory script in
    let envp = map (λ e. c_str (env_entry e)) (build_env_map request script) in
    ap (child_of kernel input d envp) (context kernel.chdir script [] (c_str script ∷ []) h.changes)
    ∙ child_from-served kernel input d directory (c_str arg ∷ []) envp directory h
execute_child-prepare request script (b ∷ bs) c kernel input h =
    let d = prepare request script (b ∷ bs) c in
    let arg = resolve_script_exec_arg script in
    let directory = resolve_script_directory script in
    let envp = map (λ e. c_str (env_entry e)) (build_env_map request script) in
    ap (child_of kernel input d envp)
      (context kernel.chdir (b ∷ bs) (script ∷ []) (c_str (b ∷ bs) ∷ c_str script ∷ []) h.changes)
    ∙ child_from-served kernel input d directory (c_str (b ∷ bs) ∷ c_str arg ∷ []) envp directory h
