-- ===== src/Engines/Failures/Patterns.antt =====
-- The failure types of src/servepilot/schemas/benchmark.py and the table `_PATTERNS` of
-- src/servepilot/engines/failures.py.
use open_baseten_inference.Prelude.{String, List, [], ◌∷◌}

pub data FailureType : Type 0 where
  oom : FailureType
  model_unsupported : FailureType
  invalid_argument : FailureType
  engine_crash : FailureType
  startup_timeout : FailureType
  port_conflict : FailureType
  cuda_error : FailureType
  nccl_error : FailureType
  model_download_error : FailureType
  auth_error : FailureType
  unknown : FailureType

abbrev pub oom_patterns : List String
oom_patterns =
    "CUDA out of memory" ∷ "OutOfMemoryError" ∷ "torch\\.OutOfMemoryError" ∷ "out of memory"
    ∷ "No available memory for the cache blocks" ∷ "not enough memory"
    ∷ "Not enough memory\\.? Please try to increase --mem-fraction-static" ∷ "insufficient memory"
    ∷ "free memory on device .* is less than desired GPU memory utilization"
    ∷ "memory profiling .* exceeds" ∷ "cudaErrorMemoryAllocation" ∷ "CUBLAS_STATUS_ALLOC_FAILED"
    ∷ "The model's max seq len .* is larger than the maximum number of tokens that can be stored in KV cache"
    ∷ "KV cache is too small" ∷ "CUDA_ERROR_OUT_OF_MEMORY" ∷ []

abbrev pub auth_error_patterns : List String
auth_error_patterns =
    "401 Client Error" ∷ "403 Client Error" ∷ "GatedRepoError" ∷ "RepositoryNotFoundError"
    ∷ "Access to model .* is restricted" ∷ "You must be authenticated" ∷ "Invalid user token"
    ∷ "gated repo" ∷ []

abbrev pub model_download_error_patterns : List String
model_download_error_patterns =
    "HfHubHTTPError" ∷ "ConnectionError" ∷ "Failed to connect to huggingface\\.co"
    ∷ "Max retries exceeded" ∷ "Read timed out" ∷ "No space left on device"
    ∷ "LocalEntryNotFoundError" ∷ "RevisionNotFoundError" ∷ "EntryNotFoundError"
    ∷ "Cannot find the requested files in the disk cache" ∷ []

abbrev pub port_conflict_patterns : List String
port_conflict_patterns =
    "address already in use" ∷ "\\[Errno 98\\]" ∷ "EADDRINUSE" ∷ "port .* is already in use"
    ∷ "Only one usage of each socket address" ∷ []

abbrev pub nccl_error_patterns : List String
nccl_error_patterns =
    "NCCL error" ∷ "ncclSystemError" ∷ "ncclInternalError" ∷ "ncclUnhandledCudaError"
    ∷ "ncclInvalidUsage" ∷ "NCCL WARN" ∷ "torch\\.distributed\\.DistBackendError"
    ∷ "Connection reset by peer.*NCCL" ∷ "Gloo connectFullMesh failed"
    ∷ "Timed out initializing process group" ∷ []

abbrev pub model_unsupported_patterns : List String
model_unsupported_patterns =
    "Model architectures? \\[.*\\] (are|is) not supported" ∷ "is not supported for now"
    ∷ "Unsupported model type" ∷ "not supported by (vLLM|SGLang)" ∷ "Cannot find model module"
    ∷ "Unrecognized configuration class" ∷ "does not recognize this architecture"
    ∷ "Quantization method .* is not supported" ∷ "unsupported quantization"
    ∷ "requires trust_remote_code" ∷ "trust_remote_code=True"
    ∷ "The checkpoint you are trying to load has model type .* but Transformers does not recognize"
    ∷ "Total number of attention heads .* must be divisible by tensor parallel size"
    ∷ "is not divisible by tensor parallel size" ∷ "Number of experts .* must be divisible"
    ∷ "Bfloat16 is only supported on GPUs with compute capability" ∷ "is not supported on this GPU"
    ∷ []

abbrev pub engine_crash_patterns : List String
engine_crash_patterns =
    "No such file or directory: 'ninja'" ∷ "ModuleNotFoundError: No module named"
    ∷ "ImportError: (cannot import name|.*\\.so)" ∷ "undefined symbol" ∷ []

abbrev pub invalid_argument_patterns : List String
invalid_argument_patterns =
    "error: unrecognized arguments" ∷ "error: argument .*: invalid"
    ∷ "error: the following arguments are required" ∷ "usage: .*\\n.*error"
    ∷ "ValueError: .*(argument|must be|should be|invalid)" ∷ "invalid choice" ∷ "No such option"
    ∷ "Unknown option" ∷ []

abbrev pub cuda_error_patterns : List String
cuda_error_patterns =
    "CUDA error" ∷ "CUDA driver version is insufficient" ∷ "no CUDA-capable device is detected"
    ∷ "CUDA_ERROR_" ∷ "cudaError" ∷ "device-side assert" ∷ "an illegal memory access"
    ∷ "RuntimeError: Found no NVIDIA driver" ∷ "Torch not compiled with CUDA enabled"
    ∷ "NVML Shared Library Not Found" ∷ "Failed to initialize NVML" ∷ "cuda runtime error"
    ∷ "cuDNN error" ∷ "CUBLAS_STATUS_" ∷ []

-- `_PATTERNS`: the first matching category wins
abbrev pub patterns : List (FailureType × List String)
patterns =
    (oom, oom_patterns)
    ∷ (auth_error, auth_error_patterns)
    ∷ (model_download_error, model_download_error_patterns)
    ∷ (port_conflict, port_conflict_patterns)
    ∷ (nccl_error, nccl_error_patterns)
    ∷ (model_unsupported, model_unsupported_patterns)
    ∷ (engine_crash, engine_crash_patterns)
    ∷ (invalid_argument, invalid_argument_patterns)
    ∷ (cuda_error, cuda_error_patterns)
    ∷ []
