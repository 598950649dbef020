-- ===== src/Node/ChainSpec/Tests.antt =====
-- The theorem about the start of a chain, at concrete specifications and a concrete state.
