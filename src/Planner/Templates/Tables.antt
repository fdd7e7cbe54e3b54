-- ===== src/Planner/Templates/Tables.antt =====
-- The tables of agentflow/agents/planner/templates.py.
use omni_forge.Base.{String, List, [], ◌∷◌, ℕ}

pub record TemplateTask : Type 0 where
  pub task_id : String
  pub title : String
  pub priority : ℕ
  pub tool : String
  pub goal : String

pub record Template : Type 0 where
  pub id : String
  pub name : String
  pub keywords : List String
  pub initial_tasks : List TemplateTask
  pub required_ids : List String

abbrev file_task : String → String → ℕ → String → TemplateTask
file_task task_id title priority goal = record {
  task_id = task_id;
  title = title;
  priority = priority;
  tool = "filesystem";
  goal = goal;
}

abbrev pub python_web_tasks : List TemplateTask
python_web_tasks =
    file_task "create_project_dir" "创建项目目录" 100 "创建项目根目录"
    ∷ file_task "create_gitignore" "创建 .gitignore" 95 "创建 .gitignore"
    ∷ file_task "create_requirements" "创建 requirements.txt" 95 "创建 requirements.txt"
    ∷ file_task "create_readme" "创建 README.md" 90 "创建 README.md"
    ∷ file_task "create_app" "创建后端应用入口" 80 "创建 app.py"
    ∷ file_task "create_config" "创建应用配置" 75 "创建 config.py"
    ∷ file_task "create_models" "创建数据库模型" 70 "创建 models.py"
    ∷ file_task "create_schema" "创建数据库 Schema" 65 "创建 schema.sql"
    ∷ file_task "create_routes" "创建 API 路由" 60 "创建 routes.py"
    ∷ file_task "create_frontend_html" "创建前端 HTML" 50 "创建 index.html"
    ∷ file_task "create_frontend_css" "创建前端样式" 45 "创建 CSS"
    ∷ file_task "create_frontend_js" "创建前端逻辑" 40 "创建 JavaScript"
    ∷ file_task "create_dockerfile" "创建 Dockerfile" 30 "创建 Dockerfile"
    ∷ file_task "create_docker_compose" "创建 docker-compose.yml" 25 "创建 docker-compose.yml"
    ∷ file_task "create_tests" "创建测试文件" 20 "创建测试"
    ∷ []

abbrev pub python_web : Template
python_web = record {
  id = "python_web";
  name = "Python Web Application";
  keywords = "web" ∷ "网站" ∷ "应用" ∷ "后台" ∷ "管理系统" ∷ "backend" ∷ "api" ∷ "server" ∷ "服务" ∷ [];
  initial_tasks = python_web_tasks;
  required_ids =
      "create_project_dir" ∷ "create_app" ∷ "create_models" ∷ "create_routes"
      ∷ "create_frontend_html" ∷ [];
}

abbrev pub python_cli_tasks : List TemplateTask
python_cli_tasks =
    file_task "create_project_dir" "创建项目目录" 100 "创建项目根目录"
    ∷ file_task "create_main" "创建主入口" 90 "创建 main.py"
    ∷ file_task "create_utils" "创建工具模块" 80 "创建 utils.py"
    ∷ file_task "create_tests" "创建测试文件" 70 "创建测试"
    ∷ file_task "create_readme" "创建 README.md" 60 "创建 README.md"
    ∷ file_task "create_gitignore" "创建 .gitignore" 55 "创建 .gitignore"
    ∷ []

abbrev pub python_cli : Template
python_cli = record {
  id = "python_cli";
  name = "Python CLI Tool";
  keywords = "cli" ∷ "命令行" ∷ "工具" ∷ "script" ∷ "脚本" ∷ [];
  initial_tasks = python_cli_tasks;
  required_ids = "create_main" ∷ "create_utils" ∷ [];
}

abbrev pub frontend_tasks : List TemplateTask
frontend_tasks =
    file_task "create_project_dir" "创建项目目录" 100 "创建项目根目录"
    ∷ file_task "create_html" "创建 HTML 入口" 90 "创建 index.html"
    ∷ file_task "create_css" "创建样式文件" 80 "创建 CSS"
    ∷ file_task "create_js" "创建脚本文件" 70 "创建 JavaScript"
    ∷ file_task "create_readme" "创建 README.md" 60 "创建 README.md"
    ∷ []

abbrev pub frontend : Template
frontend = record {
  id = "frontend";
  name = "Frontend Application";
  keywords = "frontend" ∷ "前端" ∷ "ui" ∷ "界面" ∷ "页面" ∷ [];
  initial_tasks = frontend_tasks;
  required_ids = "create_project_dir" ∷ "create_html" ∷ [];
}

-- `TEMPLATES`, in the order of the dict
abbrev pub templates : List Template
templates = python_web ∷ python_cli ∷ frontend ∷ []

-- `path_map`: what follows the name of the project.
abbrev pub path_map : List (String × String)
path_map =
    ("create_project_dir", "")
    ∷ ("create_gitignore", "/.gitignore")
    ∷ ("create_requirements", "/requirements.txt")
    ∷ ("create_readme", "/README.md")
    ∷ ("create_app", "/app.py")
    ∷ ("create_config", "/config.py")
    ∷ ("create_models", "/models.py")
    ∷ ("create_schema", "/schema.sql")
    ∷ ("create_routes", "/routes.py")
    ∷ ("create_frontend_html", "/index.html")
    ∷ ("create_frontend_css", "/static/css/style.css")
    ∷ ("create_frontend_js", "/static/js/app.js")
    ∷ ("create_dockerfile", "/Dockerfile")
    ∷ ("create_docker_compose", "/docker-compose.yml")
    ∷ ("create_tests", "/tests/test_app.py")
    ∷ ("create_main", "/main.py")
    ∷ ("create_utils", "/utils.py")
    ∷ ("create_html", "/index.html")
    ∷ ("create_css", "/css/style.css")
    ∷ ("create_js", "/js/app.js")
    ∷ []

-- `_DEFAULT_CONTENT`
abbrev pub default_content : List (String × String)
default_content =
    ("README.md", "# {project_name}\n\n项目描述\n")
    ∷ (".gitignore", "__pycache__/\n*.pyc\n.env\nvenv/\n.venv/\n")
    ∷ ("requirements.txt", "# 依赖\n")
    ∷ (
      "index.html",
      "<!DOCTYPE html>\n<html lang=\"zh-CN\">\n<head>\n    <meta charset=\"UTF-8\">\n    <meta name=\"viewport\" content=\"width=device-width, initial-scale=1.0\">\n    <title>{project_name}</title>\n</head>\n<body>\n    <h1>{project_name}</h1>\n</body>\n</html>\n",
    )
    ∷ (
      "app.py",
      "# {project_name}\n\ndef main():\n    pass\n\nif __name__ == \"__main__\":\n    main()\n",
    )
    ∷ ("style.css", "/* {project_name} */\n")
    ∷ ("app.js", "// {project_name}\n")
    ∷ ("config.py", "# {project_name} 配置\n")
    ∷ ("models.py", "# {project_name} 数据模型\n")
    ∷ (
      "main.py",
      "# {project_name}\n\ndef main():\n    pass\n\nif __name__ == \"__main__\":\n    main()\n",
    )
    ∷ ("utils.py", "# {project_name} 工具函数\n")
    ∷ (
      "Dockerfile", "FROM python:3.11-slim\nWORKDIR /app\nCOPY . .\nCMD [\"python\", \"app.py\"]\n",
    )
    ∷ []

-- The prefixes that a goal may start with, in the order in which they are tried.
abbrev pub prefixes : List String
prefixes =
    "帮我写个" ∷ "帮我写一个" ∷ "帮我创建一个" ∷ "帮我创建个" ∷ "帮我做一个" ∷ "帮我做个" ∷ "给我写个" ∷ "给我做一个" ∷ "给我做个" ∷ "请帮我"
    ∷ "帮我" ∷ "给我" ∷ "开发一个" ∷ "创建一个" ∷ "创建个" ∷ "做一个" ∷ "做个" ∷ "搭建" ∷ "构建" ∷ "实现" ∷ "生成" ∷ "开发" ∷ "创建"
    ∷ "写一个" ∷ "写个" ∷ []
