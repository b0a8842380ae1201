-- ===== src/Transcript/Display/Protect.antt =====
-- About `protectTranscript` of webui/src/utils/transcriptProtocol.ts.
use ga_hub.Prelude.{ℕ, map, List, [], ◌∷◌, ◌++◌}
use ga_hub.Transcript.{NodeKind, code, tool, TranscriptNode, slice}

-- What is to be hidden of a node: a code block as it stands, and a call's opaque blocks.
abbrev hidden_of : List ℕ → NodeKind → TranscriptNode → List (List ℕ)
hidden_of source code node = node.raw ∷ []
hidden_of source tool node = map (λ r. slice source r.0 r.1) node.opaque
hidden_of source _ node = []

abbrev pub hidden_blocks : List ℕ → List TranscriptNode → List (List ℕ)
hidden_blocks source [] = []
hidden_blocks source (node ∷ nodes) = hidden_of source node.kind node ++ hidden_blocks source nodes
