-- ===== src/Tests.antt =====
-- Stand-ins for what is outside the repository, tests on them, and the theorems at concrete inputs.
mod ToyWords
mod ToyHost
mod ToyFrame
mod Examples
mod ChainExamples
mod Codecs
mod NodeExamples
mod CommandExamples
mod SdkExamples
mod StandardExamples
mod MockExamples
mod ApiExamples
mod LaterExamples
mod AuthorityExamples
