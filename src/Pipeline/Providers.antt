-- ===== src/Pipeline/Providers.antt =====
-- The provider table of atsuite/pipeline.py and what is looked up in it.
use atsuite.Base.{String, ◌||◌, none, some, [], ◌∷◌, ◌==◌, if◌then◌else◌, string_eq}
use atsuite.Base.Dict.{Dict, get}
use atsuite.Base.Text.{◌&◌, fold_case, starts_with}
use atsuite.Result.{Result, ok, err, exit_with}
use atsuite.Pipeline.Data.{ProviderSpec}

-- ProviderSpec.base_image
unfoldable pub base_image : ProviderSpec → String → Result String
base_image spec python_version =
    let docker = spec.docker_provider in
    if docker == "ali"
    then ok (
        "alibaba-cloud-linux-3-registry.cn-hangzhou.cr.aliyuncs.com/alinux3/python:"
        & python_version)
    else if docker == "aws_lambda"
    then ok ("public.ecr.aws/lambda/python:" & python_version)
    else if docker == "gcp" || docker == "aws_agentcore" || docker == "mcp_gateway"
    then ok ("python:" & python_version & "-slim")
    else err (exit_with ("Unsupported docker provider: " & docker))

-- PROVIDERS
abbrev pub providers : Dict String ProviderSpec
providers =
    (
      "ali_fc",
      record {
        name = "ali_fc";
        family = "faas";
        docker_provider = "ali";
        analyzer_provider = "ali";
        storage_provider = "ali";
        runtime_provider = "ali_fc";
        observability_provider = "ali_sls";
        default_platform = none;
      },
    )
    ∷ (
      "aws_lambda",
      record {
        name = "aws_lambda";
        family = "faas";
        docker_provider = "aws_lambda";
        analyzer_provider = "aws_lambda";
        storage_provider = "aws_lambda";
        runtime_provider = "aws_lambda";
        observability_provider = "aws_lambda_cloudwatch";
        default_platform = none;
      },
    )
    ∷ (
      "gcp_faas",
      record {
        name = "gcp_faas";
        family = "faas";
        docker_provider = "gcp";
        analyzer_provider = "gcp";
        storage_provider = "gcp";
        runtime_provider = "gcp_faas";
        observability_provider = "gcp_cloud_logging";
        default_platform = some "linux/amd64";
      },
    )
    ∷ (
      "ali_agentrun",
      record {
        name = "ali_agentrun";
        family = "session";
        docker_provider = "ali";
        analyzer_provider = "ali";
        storage_provider = "ali";
        runtime_provider = "ali_agentrun";
        observability_provider = "ali_sls";
        default_platform = none;
      },
    )
    ∷ (
      "aws_agentcore",
      record {
        name = "aws_agentcore";
        family = "session";
        docker_provider = "aws_agentcore";
        analyzer_provider = "aws_agentcore";
        storage_provider = "aws_agentcore";
        runtime_provider = "aws_agentcore";
        observability_provider = "aws_agentcore_cloudwatch";
        default_platform = some "linux/arm64";
      },
    )
    ∷ (
      "gcp_mcp",
      record {
        name = "gcp_mcp";
        family = "session";
        docker_provider = "gcp";
        analyzer_provider = "gcp";
        storage_provider = "gcp";
        runtime_provider = "gcp_mcp";
        observability_provider = "gcp_cloud_logging";
        default_platform = some "linux/amd64";
      },
    )
    ∷ (
      "mcp_gateway",
      record {
        name = "mcp_gateway";
        family = "session";
        docker_provider = "mcp_gateway";
        analyzer_provider = "";
        storage_provider = "mcp_gateway";
        runtime_provider = "mcp_gateway";
        observability_provider = "mcp_gateway";
        default_platform = none;
      },
    )
    ∷ []

-- get_provider_spec
unfoldable pub get_provider_spec : String → Result ProviderSpec
unfolding get fold_case
get_provider_spec provider = elim (get providers (fold_case provider)) [
  | none ↦ err (exit_with ("Unsupported provider: " & provider))
  | some spec ↦ ok spec
]

-- normalize_provider_storage of atsuite/utils.py
unfoldable pub normalize_provider_storage : String → String
unfolding fold_case starts_with
normalize_provider_storage provider =
    let key = fold_case provider in
    if starts_with "ali" key
    then "ali"
    else if starts_with "gcp" key
    then "gcp"
    else if starts_with "aws" key
    then "aws"
    else key

-- provider_storage_name
unfoldable pub provider_storage_name : String → String
unfolding fold_case starts_with
provider_storage_name provider =
    let key = fold_case provider in
    if starts_with "ali" key
    then "ali"
    else if starts_with "gcp" key
    then "gcp"
    else if starts_with "aws" key
    then "aws"
    else if key == "mcp_gateway"
    then "mcp_gateway"
    else key

-- provider_cloud_name
unfoldable pub provider_cloud_name : String → String
unfolding fold_case starts_with
provider_cloud_name provider =
    let key = fold_case provider in
    if starts_with "ali" key
    then "ali"
    else if starts_with "gcp" key
    then "gcp"
    else if starts_with "aws" key
    then "aws"
    else if key == "mcp_gateway"
    then "mcp_gateway"
    else key
