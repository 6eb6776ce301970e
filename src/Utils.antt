-- ===== src/Utils.antt =====
-- rpt-utils: the parser of text protocols, results of handlers and command line options.
pub mod TextProtocol
pub mod HandlingResult
pub mod CommandLine
