-- ===== src/Pipeline/Rules.antt =====
-- pipeline/rules.py: the rule tables. A pattern is the text of a regular expression.
use node_monitor.Common.{ℕ, String, List, [], ◌∷◌}

pub record CategoryRule : Type 0 where
  pub category : String
  pub pattern : String
  pub priority : ℕ

pub record ActivityRule : Type 0 where
  pub activity : String
  pub category : String
  pub pattern : String
  pub priority : ℕ

abbrev pub spec_categories : List String
spec_categories =
    "ai_agent" ∷ "editor_server" ∷ "jupyter" ∷ "build" ∷ "python" ∷ "shell" ∷ "data_transfer"
    ∷ "fs_scan" ∷ "scheduler" ∷ "workflow" ∷ "system" ∷ "other" ∷ []

abbrev pub default_category : String
default_category = "other"

abbrev pub category_rules : List CategoryRule
category_rules =
    record {
      category = "editor_server";
      pattern =
          "vscode-server|vscode_server|\\.vscode-server|cursor-server|\\.cursor-server|jetbrains|remote-dev-server|code-server";
      priority = 10;
    }
    ∷ record {
      category = "ai_agent";
      pattern =
          "(^|/)(claude|codex|opencode|aider|gemini|cline|goose|windsurf|hermes|hermes-agent|hermes_cli|openclaw|open-claw|open_claw)( |$)|-m\\s+(claude|codex|opencode|aider|gemini|cline|goose|windsurf|hermes_cli|openclaw)[_.\\s]|anthropic\\.claude-code|openai\\.chatgpt|claude-code|claude_code|copilot-language|copilot-agent|gh-copilot|github\\.copilot|codeium-windsurf|codeium\\.windsurf|windsurf-server|\\.windsurf-server|cursor-agent|roo-cline|roo-code|rooveterinaryinc\\.roo-cline|continue\\.continue|continuedev|\\.continue/";
      priority = 20;
    }
    ∷ record {
      category = "jupyter";
      pattern = "jupyter|ipykernel|jupyter-lab|jupyterhub";
      priority = 10;
    }
    ∷ record {
      category = "scheduler";
      pattern =
          "(^|/)(qstat|qsub|qdel|qhold|qrls|qalter|pbsnodes|pbs_[a-z]+|mpiexec|mpirun|aprun|srun)( |$)";
      priority = 10;
    }
    ∷ record {
      category = "data_transfer";
      pattern =
          "(^|/)(git|git-[a-z-]+|rsync|scp|sftp|globus|globus-url-copy|curl|wget|tar|gzip|gunzip|bzip2|xz|zip|unzip|hsi|htar)( |$)";
      priority = 10;
    }
    ∷ record {
      category = "fs_scan";
      pattern =
          "(^|/)(find|du|ncdu|updatedb|locate|stat|ls)( |$)|(^|/)lfs( |$).*(find|df)|(^|/)mlocate";
      priority = 10;
    }
    ∷ record {
      category = "build";
      pattern =
          "(^|/)(make|gmake|cmake|ninja|gcc|g\\+\\+|cc|c\\+\\+|clang|clang\\+\\+|nvcc|ftn|CC|ld|ar|ranlib|cargo|rustc|go|javac|configure|conda|pip|pip3|spack)( |$)";
      priority = 10;
    }
    ∷ record { category = "python"; pattern = "(^|/)(python|python[0-9.]*)( |$)"; priority = 10 }
    ∷ record {
      category = "shell";
      pattern =
          "(^|/)(sshd|bash|zsh|tcsh|csh|ksh|sh|screen|tmux|systemd|\\(sd-pam\\)|dbus-daemon|dbus-launch|login|su|sudo)( |:|$)|^-";
      priority = 10;
    }
    ∷ []

abbrev pub activity_rules : List ActivityRule
activity_rules =
    record {
      activity = "vscode-remote-server";
      category = "editor_server";
      pattern = "vscode-server|code-server";
      priority = 10;
    }
    ∷ record {
      activity = "cursor-remote-server";
      category = "editor_server";
      pattern = "cursor-server";
      priority = 10;
    }
    ∷ record {
      activity = "claude-code";
      category = "ai_agent";
      pattern = "claude-code|anthropic\\.claude-code|(^|/)claude( |$)";
      priority = 20;
    }
    ∷ record {
      activity = "codex-cli";
      category = "ai_agent";
      pattern = "(^|/)codex( |$)|openai\\.chatgpt";
      priority = 20;
    }
    ∷ record {
      activity = "windsurf";
      category = "ai_agent";
      pattern =
          "(^|/)windsurf( |$)|codeium-windsurf|codeium\\.windsurf|windsurf-server|\\.windsurf-server";
      priority = 20;
    }
    ∷ record {
      activity = "cursor-cli";
      category = "ai_agent";
      pattern = "cursor-agent|(^|/)cursor( |$)";
      priority = 20;
    }
    ∷ record {
      activity = "hermes";
      category = "ai_agent";
      pattern = "hermes-agent|hermes_cli|(^|/)hermes( |$)";
      priority = 20;
    }
    ∷ record {
      activity = "openclaw";
      category = "ai_agent";
      pattern = "open-claw|openclaw|open_claw";
      priority = 20;
    }
    ∷ record {
      activity = "roo";
      category = "ai_agent";
      pattern = "roo-cline|roo-code|rooveterinaryinc\\.roo-cline";
      priority = 20;
    }
    ∷ record {
      activity = "continue";
      category = "ai_agent";
      pattern = "continue\\.continue|continuedev|(^|/)\\.continue/";
      priority = 20;
    }
    ∷ record {
      activity = "copilot-agent";
      category = "ai_agent";
      pattern = "copilot-agent|copilot-language-server|gh-copilot|github\\.copilot";
      priority = 20;
    }
    ∷ record {
      activity = "jupyter-kernel";
      category = "jupyter";
      pattern = "ipykernel";
      priority = 10;
    }
    ∷ record {
      activity = "jupyter-server";
      category = "jupyter";
      pattern = "jupyter";
      priority = 10;
    }
    ∷ record {
      activity = "torch-distributed";
      category = "python";
      pattern = "torch\\.distributed|torchrun";
      priority = 10;
    }
    ∷ record {
      activity = "mpi-launch";
      category = "scheduler";
      pattern = "(^|/)(mpiexec|mpirun|aprun|srun)( |$)";
      priority = 10;
    }
    ∷ record {
      activity = "compiler-invocation";
      category = "build";
      pattern = "(^|/)(gcc|g\\+\\+|clang|nvcc|ftn|cc|c\\+\\+)( |$)";
      priority = 10;
    }
    ∷ record {
      activity = "build-driver";
      category = "build";
      pattern = "(^|/)(make|gmake|cmake|ninja)( |$)";
      priority = 10;
    }
    ∷ record {
      activity = "package-install";
      category = "build";
      pattern = "(^|/)(pip|pip3|conda|spack)( |$)";
      priority = 10;
    }
    ∷ record {
      activity = "git-operation";
      category = "data_transfer";
      pattern = "(^|/)git( |$)|(^|/)git-[a-z-]+( |$)";
      priority = 10;
    }
    ∷ record {
      activity = "data-transfer";
      category = "data_transfer";
      pattern = "(^|/)(rsync|scp|sftp|globus|globus-url-copy|curl|wget)( |$)";
      priority = 10;
    }
    ∷ record {
      activity = "filesystem-scan";
      category = "fs_scan";
      pattern = "(^|/)(find|du|ncdu|updatedb)( |$)";
      priority = 10;
    }
    ∷ record {
      activity = "pbs-query";
      category = "scheduler";
      pattern = "(^|/)(qstat|qsub|qdel|pbsnodes)( |$)";
      priority = 10;
    }
    ∷ record {
      activity = "globus-compute";
      category = "workflow";
      pattern = "globus-compute-endpoint|globus.compute|gc_submit|gc-ctrl";
      priority = 10;
    }
    ∷ record {
      activity = "balsam";
      category = "workflow";
      pattern = "(^|/)balsam( |$)|-m\\s+balsam\\.";
      priority = 10;
    }
    ∷ record {
      activity = "parsl";
      category = "workflow";
      pattern = "(^|/)parsl( |$)|-m\\s+parsl\\.";
      priority = 10;
    }
    ∷ record {
      activity = "argo";
      category = "workflow";
      pattern = "argo-shim|argo-proxy|argo.bridge|ARGO_BRIDGE_SOCK";
      priority = 10;
    }
    ∷ record {
      activity = "postgres";
      category = "system";
      pattern = "(^|/)postgres( |$)|postmaster";
      priority = 10;
    }
    ∷ record {
      activity = "dbus";
      category = "system";
      pattern = "dbus-daemon|dbus-launch|dbus-session";
      priority = 10;
    }
    ∷ record {
      activity = "fail2ban";
      category = "system";
      pattern = "fail2ban-server|fail2ban";
      priority = 10;
    }
    ∷ record {
      activity = "ssh-agent";
      category = "shell";
      pattern = "(^|/)ssh-agent( |$)";
      priority = 10;
    }
    ∷ record { activity = "sleep"; category = "shell"; pattern = "(^|/)sleep( |$)"; priority = 10 }
    ∷ record {
      activity = "pytest";
      category = "python";
      pattern = "-m\\s+pytest\\b";
      priority = 10;
    }
    ∷ record {
      activity = "reuse-lint";
      category = "other";
      pattern = "-m\\s+reuse\\b";
      priority = 10;
    }
    ∷ record {
      activity = "python-http-server";
      category = "python";
      pattern = "-m\\s+http\\.server|preview_server|serve_boards|helios_preview_server|nxserver";
      priority = 10;
    }
    ∷ record {
      activity = "starccm";
      category = "other";
      pattern = "-m\\s+starserver|STAR-CCM";
      priority = 10;
    }
    ∷ record {
      activity = "python-training";
      category = "python";
      pattern = "(^|[/ ])train\\.py( |$)|train_.*\\.py|finetune|fine.tune";
      priority = 10;
    }
    ∷ record {
      activity = "python-inference";
      category = "python";
      pattern =
          "(^|[/ ])infer\\.py( |$)|infer_.*\\.py|(^|[/ ])predict\\.py( |$)|generat.*\\.py|(^|[/ ])boltz( |$)";
      priority = 10;
    }
    ∷ record {
      activity = "python-generic";
      category = "python";
      pattern = "(^|/)python[0-9.]*( |$)";
      priority = 5;
    }
    ∷ record {
      activity = "shell";
      category = "shell";
      pattern = "(^|/)(bash|zsh|tcsh|csh|ksh|sh)( |$)|^-";
      priority = 10;
    }
    ∷ record {
      activity = "ssh-session";
      category = "shell";
      pattern = "(^|/)sshd( |:|$)";
      priority = 10;
    }
    ∷ record {
      activity = "terminal-multiplexer";
      category = "shell";
      pattern = "(^|/)(screen|tmux)( |$)";
      priority = 10;
    }
    ∷ record {
      activity = "agent-like-unclassified";
      category = "ai_agent";
      pattern =
          "(^|/)\\.vscode-server/extensions/[A-Za-z0-9_-]+\\.[A-Za-z0-9_.-]*(?:agent|assistant|copilot|chatbot)[A-Za-z0-9_.-]*(?:/|$)";
      priority = 15;
    }
    ∷ []
