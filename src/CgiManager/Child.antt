-- ===== src/CgiManager/Child.antt =====
-- src/CGIManager.cpp: the side of `execute` that runs in the new process, up to execve.
use left_hook_roll.Text.{Bytes}
use left_hook_roll.Prelude.{
  length, ltb, ◌&&◌, true, some, none, if◌then◌else◌, set, Bool, ◌∷◌, ℕ, Option, List, [],
}
use left_hook_roll.CgiManager.State.{
  CgiManager, resolve_script_exec_arg, c_str, resolve_script_directory,
}

-- What the kernel says to the child's calls.
pub record ChildKernel : Type 0 where
  pub chdir : Bytes → Bool
  pub dup_stdin : Bool
  pub dup_stdout : Bool
  pub execve : Bool

-- The program that execve puts in the place of the child.
pub record Program : Type 0 where
  pub directory : Bytes
  pub file : Bytes
  pub argv : List Bytes
  pub envp : List Bytes
  pub stdin : Option ℕ
  pub stdout : Option ℕ

-- The child throws a FatalException, or runs the program.
pub data ChildEnd : Type 0 where
  fatal : ChildEnd
  runs : Program → ChildEnd

-- scriptArgv.back()
abbrev pub back : Bytes → List Bytes → Bytes
back x [] = x
back x (y ∷ ys) = back y ys

-- strcpy into the array's string at position 1 if there is an interpreter, and else at position 0.
unfoldable pub set_exec_arg : List Bytes → Bytes → List Bytes → List Bytes
unfolding c_str
set_exec_arg script_argv arg argv =
    set argv (if ltb 1 (length script_argv) then 1 else 0) (c_str arg)

-- prepareChildExecutionContext: the directory, and the new argv; `none` for a FatalException.
unfoldable pub prepare_child_execution_context :
    (Bytes → Bool) → List Bytes → List Bytes → Option (Bytes × List Bytes)
unfolding set_exec_arg resolve_script_directory resolve_script_exec_arg
prepare_child_execution_context chdir [] argv = none
prepare_child_execution_context chdir (x ∷ xs) argv =
    let script = back x xs in
    let directory = resolve_script_directory script in
    if chdir (c_str directory)
    then some (directory, set_exec_arg (x ∷ xs) (resolve_script_exec_arg script) argv)
    else none

-- _execveArgv[0], of an array that holds a string
abbrev pub first_arg : List Bytes → Bytes
first_arg [] = []
first_arg (x ∷ xs) = x

module _ (kernel : ChildKernel) (input : Option ℕ) (c : CgiManager) where
  abbrev program_in : Bytes × List Bytes → List Bytes → Program
  program_in (directory, argv) envp = record {
    directory = directory;
    file = first_arg argv;
    argv = argv;
    envp = envp;
    stdin = input;
    stdout = c.pipe_write;
  }

  -- dup2(inputFd, STDIN_FILENO), if there is an input
  abbrev stdin_served : Bool
  stdin_served = elim input [ none ↦ true | some fd ↦ kernel.dup_stdin ]

  unfoldable pub child_from : Bytes × List Bytes → List Bytes → ChildEnd
  child_from context envp =
      if (stdin_served && kernel.dup_stdout) && kernel.execve
      then runs (program_in context envp)
      else fatal

  -- The arrays are those of `prepare`.
  unfoldable pub run_child : List Bytes → List Bytes → ChildEnd
  unfolding child_from prepare_child_execution_context
  run_child argv envp = elim (prepare_child_execution_context kernel.chdir c.script_argv argv) [
    | none ↦ fatal
    | some context ↦ child_from context envp
  ]

  -- The child with the object's arrays, which `prepare` has made.
  unfoldable pub execute_child : ChildEnd
  unfolding run_child
  execute_child = elim c.execve_argv [
    | none ↦ fatal
    | some argv ↦ elim c.execve_envp [ none ↦ fatal | some envp ↦ run_child argv envp ]
  ]
