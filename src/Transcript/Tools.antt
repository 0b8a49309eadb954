-- ===== src/Transcript/Tools.antt =====
-- The names of tools in crates/vaultr/src/translate.rs.
use vaultr.Prelude.{Option, none, some, List, [], ◌∷◌, if◌then◌else◌}
use vaultr.Text.{Text, chars}
use vaultr.Json.{and_then}
use vaultr.Recon.Delta.{is_one_of}

pub data ToolKind : Type 0 where
  shell edit write read glob grep web_search plan : ToolKind

-- The first row that has the name.
unfoldable pub classify : List (List Text × ToolKind) → Text → Option ToolKind
classify [] name = none
classify ((names, kind) ∷ rows) name =
    let rest = classify rows name in if is_one_of names name then some kind else rest

unfoldable pub from_codex : Text → Option ToolKind
unfolding classify
from_codex name =
    classify
      ((
        chars "shell"
            ∷ chars "exec_command"
            ∷ chars "local_shell"
            ∷ chars "local_shell_call"
            ∷ chars "container.exec"
            ∷ [],
        shell,
      )
        ∷ (chars "apply_patch" ∷ [], edit)
        ∷ (chars "web_search" ∷ chars "web.search" ∷ [], web_search)
        ∷ (chars "update_plan" ∷ [], plan)
        ∷ (chars "view_image" ∷ chars "read_file" ∷ [], read)
        ∷ (chars "list_dir" ∷ chars "list_files" ∷ [], glob)
        ∷ (chars "grep" ∷ chars "search" ∷ [], grep)
        ∷ [])
      name

unfoldable pub from_claude : Text → Option ToolKind
unfolding classify
from_claude name =
    classify
      ((chars "Bash" ∷ [], shell)
        ∷ (chars "Edit" ∷ chars "MultiEdit" ∷ chars "NotebookEdit" ∷ [], edit)
        ∷ (chars "Write" ∷ [], write)
        ∷ (chars "WebSearch" ∷ [], web_search)
        ∷ (chars "TodoWrite" ∷ [], plan)
        ∷ (chars "Read" ∷ [], read)
        ∷ (chars "Glob" ∷ [], glob)
        ∷ (chars "Grep" ∷ [], grep)
        ∷ [])
      name

unfoldable pub claude_name : ToolKind → Text
claude_name shell = chars "Bash"
claude_name edit = chars "Edit"
claude_name write = chars "Write"
claude_name read = chars "Read"
claude_name glob = chars "Glob"
claude_name grep = chars "Grep"
claude_name web_search = chars "WebSearch"
claude_name plan = chars "TodoWrite"

unfoldable pub codex_name : ToolKind → Text
codex_name shell = chars "shell"
codex_name edit = chars "apply_patch"
codex_name write = chars "apply_patch"
codex_name read = chars "view_image"
codex_name glob = chars "list_dir"
codex_name grep = chars "grep"
codex_name web_search = chars "web_search"
codex_name plan = chars "update_plan"

-- None for search and plan tools, which Pi does not have.
unfoldable pub pi_name : ToolKind → Option Text
pi_name shell = some (chars "bash")
pi_name edit = some (chars "edit")
pi_name write = some (chars "write")
pi_name read = some (chars "read")
pi_name glob = some (chars "find")
pi_name grep = some (chars "grep")
pi_name web_search = none
pi_name plan = none

unfoldable pub codex_to_claude : Text → Option Text
codex_to_claude name = and_then (λ kind. some (claude_name kind)) (from_codex name)

unfoldable pub claude_to_codex : Text → Option Text
claude_to_codex name = and_then (λ kind. some (codex_name kind)) (from_claude name)
