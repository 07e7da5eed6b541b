-- ===== src/Capability/Builtin.antt =====
-- src/sdk_test_agent/capability/builtin_capabilities.py: the capabilities that the agent comes with. The
-- schema of a model is what pydantic makes of the class of that name, and an argument.
pub mod Kinds
use sth_boring.Base.{String, List, [], ◌∷◌, Option, some, none, Bool, true, false, Result, ◌<>◌}
use sth_boring.Base.Int.{pos}
use sth_boring.Json.{Value, Fields, no_fields, entry, no_items, item}
use sth_boring.Capability.Schema.{RootSchema}
use sth_boring.Capability.Models.{CapabilityDescriptor, CapabilityRiskLevel, planner_visible}
use sth_boring.Capability.Registry.{CapabilityRegistry, empty, register_all}

module _ (schema_of : String → RootSchema) where
  abbrev inspect_package_capability : CapabilityDescriptor
  inspect_package_capability = record {
    capability_id = "cap.inspect_package.v1";
    version = "1.0.0";
    step_kind = "inspect_package";
    owner_module = "inspection.package_inspector";
    name = "Inspect package input";
    description = "Inspect package input metadata and produce a package report.";
    executor_name = some "InspectPackageStepExecutor";
    input_model_ref = some "InspectPackageInput";
    output_model_ref = some "InspectPackageOutput";
    input_schema = schema_of "InspectPackageInput";
    output_schema = schema_of "InspectPackageOutput";
    required_context_keys = "package_inspector" ∷ [];
    required_capabilities = [];
    risk_level = CapabilityRiskLevel.low;
    visibility = planner_visible;
    default_enabled = true;
    is_placeholder = false;
    is_deprecated = false;
    examples =
        (entry "step_id" (Value.str "inspect_package") (
          entry "kind" (Value.str "inspect_package") (
            entry "inputs"
              (Value.obj (
                entry "package_type" (Value.str "java") (
                  entry "input_refs" (Value.obj (entry "jar" (Value.str "artifact_jar") no_fields))
                    no_fields)))
              no_fields)))
        ∷ [];
    tags = "inspection" ∷ "package" ∷ [];
    metadata = no_fields;
  }

  abbrev build_image_capability : CapabilityDescriptor
  build_image_capability = record {
    capability_id = "cap.build_image.docker.v1";
    version = "1.0.0";
    step_kind = "build_image";
    owner_module = "docker_driver";
    name = "Build Docker image";
    description =
        "Build a Docker image from an artifact-backed Dockerfile and optional build context.";
    executor_name = some "BuildImageStepExecutor";
    input_model_ref = some "BuildImageInput";
    output_model_ref = some "BuildImageOutput";
    input_schema = schema_of "BuildImageInput";
    output_schema = schema_of "BuildImageOutput";
    required_context_keys = "docker_driver" ∷ [];
    required_capabilities = [];
    risk_level = CapabilityRiskLevel.medium;
    visibility = planner_visible;
    default_enabled = true;
    is_placeholder = false;
    is_deprecated = false;
    examples =
        (entry "step_id" (Value.str "build_image") (
          entry "kind" (Value.str "build_image") (
            entry "inputs"
              (Value.obj (
                entry "image_name" (Value.str "demo-sdk") (
                  entry "tag" (Value.str "latest") (
                    entry "dockerfile"
                      (Value.obj (entry "artifact_ref" (Value.str "artifact_dockerfile") no_fields))
                      no_fields))))
              no_fields)))
        ∷ [];
    tags = "docker" ∷ "build" ∷ [];
    metadata = no_fields;
  }

  abbrev create_runtime_capability : CapabilityDescriptor
  create_runtime_capability = record {
    capability_id = "cap.create_runtime.docker.v1";
    version = "1.0.0";
    step_kind = "create_runtime";
    owner_module = "control_plane.runtime_manager";
    name = "Create runtime";
    description = "Create and optionally start a managed runtime from an image reference.";
    executor_name = some "CreateRuntimeStepExecutor";
    input_model_ref = some "CreateRuntimeInput";
    output_model_ref = some "CreateRuntimeOutput";
    input_schema = schema_of "CreateRuntimeInput";
    output_schema = schema_of "CreateRuntimeOutput";
    required_context_keys = "runtime_manager" ∷ [];
    required_capabilities = [];
    risk_level = CapabilityRiskLevel.medium;
    visibility = planner_visible;
    default_enabled = true;
    is_placeholder = false;
    is_deprecated = false;
    examples =
        (entry "step_id" (Value.str "create_runtime") (
          entry "kind" (Value.str "create_runtime") (
            entry "inputs"
              (Value.obj (
                entry "image_ref" (Value.str "demo-sdk:latest")
                  (entry "start" (Value.bool true) no_fields)))
              no_fields)))
        ∷ [];
    tags = "runtime" ∷ "docker" ∷ [];
    metadata = no_fields;
  }

  abbrev inspect_environment_capability : CapabilityDescriptor
  inspect_environment_capability = record {
    capability_id = "cap.inspect_environment.docker.v1";
    version = "1.0.0";
    step_kind = "inspect_environment";
    owner_module = "inspection.env_inspector";
    name = "Inspect environment";
    description = "Inspect runtime readiness and environment details with read-only probes.";
    executor_name = some "InspectEnvironmentStepExecutor";
    input_model_ref = some "InspectEnvironmentInput";
    output_model_ref = some "InspectEnvironmentOutput";
    input_schema = schema_of "InspectEnvironmentInput";
    output_schema = schema_of "InspectEnvironmentOutput";
    required_context_keys = "env_inspector" ∷ [];
    required_capabilities = [];
    risk_level = CapabilityRiskLevel.low;
    visibility = planner_visible;
    default_enabled = true;
    is_placeholder = false;
    is_deprecated = false;
    examples =
        (entry "step_id" (Value.str "inspect_environment") (
          entry "kind" (Value.str "inspect_environment") (
            entry "inputs"
              (Value.obj (
                entry "runtime_ref" (Value.str "runtime_1") (
                  entry "probes" (Value.arr (item (Value.str "java -version") no_items))
                    no_fields)))
              no_fields)))
        ∷ [];
    tags = "inspection" ∷ "environment" ∷ [];
    metadata = no_fields;
  }

  abbrev run_command_capability : CapabilityDescriptor
  run_command_capability = record {
    capability_id = "cap.run_command.inspect_exec.v1";
    version = "1.0.0";
    step_kind = "run_command";
    owner_module = "cmd_ctrl";
    name = "Run readonly command";
    description = "Run a low-risk command through cmd_ctrl using a declared safe action payload.";
    executor_name = some "RunCommandStepExecutor";
    input_model_ref = some "RunCommandInput";
    output_model_ref = some "RunCommandOutput";
    input_schema = schema_of "RunCommandInput";
    output_schema = schema_of "RunCommandOutput";
    required_context_keys = "command_controller" ∷ [];
    required_capabilities = [];
    risk_level = CapabilityRiskLevel.low;
    visibility = planner_visible;
    default_enabled = true;
    is_placeholder = false;
    is_deprecated = false;
    examples =
        (entry "step_id" (Value.str "check_java_version") (
          entry "kind" (Value.str "run_command") (
            entry "inputs"
              (Value.obj (
                entry "action" (Value.str "inspect_exec") (
                  entry "payload"
                    (Value.obj (
                      entry "cmd"
                        (Value.arr (item (Value.str "java") (item (Value.str "-version") no_items)))
                        (entry "timeout_sec" (Value.int (pos 30)) no_fields)))
                    no_fields)))
              no_fields)))
        ∷ [];
    tags = "cmd_ctrl" ∷ "readonly" ∷ "inspect" ∷ [];
    metadata = no_fields;
  }

  abbrev execute_probe_capability : CapabilityDescriptor
  execute_probe_capability = record {
    capability_id = "cap.execute_probe.inspect_exec.v1";
    version = "1.0.0";
    step_kind = "execute_probe";
    owner_module = "cmd_ctrl";
    name = "Execute readiness probe";
    description = "Run a named read-only readiness probe through cmd_ctrl InspectExecOperator.";
    executor_name = some "ExecuteProbeStepExecutor";
    input_model_ref = some "ExecuteProbeInput";
    output_model_ref = some "ExecuteProbeOutput";
    input_schema = schema_of "ExecuteProbeInput";
    output_schema = schema_of "ExecuteProbeOutput";
    required_context_keys = "command_controller" ∷ [];
    required_capabilities = [];
    risk_level = CapabilityRiskLevel.low;
    visibility = planner_visible;
    default_enabled = true;
    is_placeholder = false;
    is_deprecated = false;
    examples =
        (entry "step_id" (Value.str "probe_pwd") (
          entry "kind" (Value.str "execute_probe") (
            entry "inputs"
              (Value.obj (
                entry "probe_name" (Value.str "pwd") (
                  entry "payload"
                    (Value.obj
                      (entry "cmd" (Value.arr (item (Value.str "pwd") no_items)) no_fields))
                    no_fields)))
              no_fields)))
        ∷ [];
    tags = "probe" ∷ "readonly" ∷ [];
    metadata = no_fields;
  }

  abbrev collect_artifact_capability : CapabilityDescriptor
  collect_artifact_capability = record {
    capability_id = "cap.collect_artifact.v1";
    version = "1.0.0";
    step_kind = "collect_artifact";
    owner_module = "artifact_manager";
    name = "Collect artifact";
    description =
        "Persist an execution artifact reference through artifact_manager owned orchestration.";
    executor_name = some "CollectArtifactStepExecutor";
    input_model_ref = some "CollectArtifactInput";
    output_model_ref = some "CollectArtifactOutput";
    input_schema = schema_of "CollectArtifactInput";
    output_schema = schema_of "CollectArtifactOutput";
    required_context_keys = "artifact_manager" ∷ [];
    required_capabilities = [];
    risk_level = CapabilityRiskLevel.low;
    visibility = planner_visible;
    default_enabled = true;
    is_placeholder = false;
    is_deprecated = false;
    examples =
        (entry "step_id" (Value.str "collect_log") (
          entry "kind" (Value.str "collect_artifact") (
            entry "inputs"
              (Value.obj (
                entry "source_path" (Value.str "logs/app.log") (
                  entry "artifact_kind" (Value.str "exec.log")
                    (entry "name" (Value.str "app.log") no_fields))))
              no_fields)))
        ∷ [];
    tags = "artifact" ∷ "reporting" ∷ [];
    metadata = no_fields;
  }

  -- `_placeholder`, with the description, which holds the name in lower case
  abbrev placeholder_capability : String → String → String → String → CapabilityDescriptor
  placeholder_capability step_kind executor_name name description = record {
    capability_id = "cap." <> step_kind <> ".placeholder.v1";
    version = "0.1.0";
    step_kind = step_kind;
    owner_module = "execution.step_executors";
    name = name;
    description = description;
    executor_name = some executor_name;
    input_model_ref = some "EmptyPlaceholderInput";
    output_model_ref = some "EmptyPlaceholderOutput";
    input_schema = schema_of "EmptyPlaceholderInput";
    output_schema = schema_of "EmptyPlaceholderOutput";
    required_context_keys = [];
    required_capabilities = [];
    risk_level = CapabilityRiskLevel.medium;
    visibility = planner_visible;
    default_enabled = false;
    is_placeholder = true;
    is_deprecated = false;
    examples = [];
    tags = "placeholder" ∷ [];
    metadata = no_fields;
  }

  abbrev parse_text_capability : CapabilityDescriptor
  parse_text_capability =
      placeholder_capability "parse_text" "ParseTextStepExecutor" "Parse text"
        "Placeholder for future parse text integration."

  abbrev generate_script_capability : CapabilityDescriptor
  generate_script_capability =
      placeholder_capability "generate_script" "GenerateScriptStepExecutor" "Generate script"
        "Placeholder for future generate script integration."

  abbrev run_test_capability : CapabilityDescriptor
  run_test_capability =
      placeholder_capability "run_test" "RunTestStepExecutor" "Run test"
        "Placeholder for future run test integration."

  abbrev summarize_report_capability : CapabilityDescriptor
  summarize_report_capability =
      placeholder_capability "summarize_report" "SummarizeReportStepExecutor" "Summarize report"
        "Placeholder for future summarize report integration."

  abbrev pub builtin_capabilities : List CapabilityDescriptor
  builtin_capabilities =
      inspect_package_capability ∷ build_image_capability ∷ create_runtime_capability
      ∷ inspect_environment_capability ∷ run_command_capability ∷ execute_probe_capability
      ∷ collect_artifact_capability ∷ parse_text_capability ∷ generate_script_capability
      ∷ run_test_capability ∷ summarize_report_capability ∷ []

  unfoldable pub build_builtin_capability_registry : Result CapabilityRegistry
  build_builtin_capability_registry = register_all builtin_capabilities empty
